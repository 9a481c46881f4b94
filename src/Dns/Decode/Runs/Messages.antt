-- ===== src/Dns/Decode/Runs/Messages.antt =====
-- Questions, headers and whole messages that src/dns_proto.c decodes in load mode.
use c_dns_pkt.Prelude.{ℕ, ◌≤◌, length, Exec, ok, fault, stuck, ℤ}
use c_dns_pkt.Mem.{Bytes}
use c_dns_pkt.Dns.Header.{Header}
use c_dns_pkt.Dns.Message.Valid.{IsValid}
use c_dns_pkt.Dns.Decode.{Input, World, dns_max_emsg}
use c_dns_pkt.Dns.Decode.Runs.{IsCode}
use c_dns_pkt.Dns.Decode.Runs.Loaded.{Rows, load_input, NoWrap}

module _ (pkt : Bytes) (no_wrap : NoWrap pkt) where
  abbrev c : Input
  c = load_input pkt

  -- The bounds from those of the message that is reset on.
  abbrev rows : ℕ → ℕ → ℕ → Rows
  rows an ns ar = record { an = an; ns = ns; ar = ar }

-- What `dns_msg_decode` leaves: a valid message, 10 errors at most, and the code 0 or -1.
abbrev pub Loads : Exec (World × ℤ) → Type 0
Loads (ok (w, rc)) = IsValid w.msg × (length w.dec.errs ≤ dns_max_emsg) × IsCode rc
Loads fault = ⊥
Loads stuck = ⊥

-- Each section has one record at most.
abbrev pub HasOneRow : Exec (World × ℤ) → Type 0
HasOneRow (ok (w, rc)) = (length w.msg.an ≤ 1) × (length w.msg.ns ≤ 1) × (length w.msg.ar ≤ 1)
HasOneRow fault = ⊥
HasOneRow stuck = ⊥
