-- ===== src/Tests/Messages.antt =====
-- Messages built on concrete inputs.
use c_dns_pkt.Prelude.{◌≡◌, refl, [], ◌∷◌, Option, none, some, pos, arith}
use c_dns_pkt.Mem.{Bytes}
use c_dns_pkt.Dns.Message.{
  Rr, txt, Slot, Msg, msg_store_str, msg_store_name, store_txt, store_rdata, dns_sect_add_rr,
  dns_add_rr, dns_add_qdn, dns_msg_reset,
}
use c_dns_pkt.Dns.Message.Valid.{IsValid, dns_msg_reset-IsValid}
use c_dns_pkt.Dns.Message.Valid.Outcome.{Outcome, dns_sect_add_rr-Outcome}
use c_dns_pkt.Dns.Message.Valid.Calls.{dns_add_rr-IsValid, dns_add_qdn-IsValid}

abbrev ab : Bytes
ab = b'a' ∷ b'b' ∷ []

abbrev c : Bytes
c = b'c' ∷ []

-- `ab` and `c`, as the store holds them.
abbrev ab_c : Bytes
ab_c = b'a' ∷ b'b' ∷ 0 ∷ b'c' ∷ 0 ∷ []

store_ab : msg_store_str [] ab ≡ (b'a' ∷ b'b' ∷ 0 ∷ [], some 0)
unfolding msg_store_str
store_ab = refl

abbrev fresh : Msg
fresh = record {
  hdr = record { id = 0; flags = 0; qd_count = 0; an_count = 0; ns_count = 0; ar_count = 0 };
  names = 7 ∷ [];
  qd = [];
  an = [];
  ns = [];
  ar = [];
}

-- A record that the slot held before listed one string.
abbrev slot : Slot
slot = record { strs = none ∷ []; z_bits = 0; rdlen = 9 }

abbrev answer : Rr (Option Bytes)
answer = record { name = some ab; class = 1; ttl = 5; rdlen = 0; rdata = txt (some c ∷ []) }

dns_msg_reset-IsValid_example : IsValid (dns_msg_reset fresh)
dns_msg_reset-IsValid_example = dns_msg_reset-IsValid fresh

-- The record lists the string that the slot listed, too.
added :
    ((dns_add_rr (dns_msg_reset fresh) 1 slot (some answer)).0.names ≡ ab_c)
    × ((dns_add_rr (dns_msg_reset fresh) 1 slot (some answer)).1 ≡ pos 0)
unfolding dns_add_rr dns_sect_add_rr dns_msg_reset msg_store_name msg_store_str store_rdata
    store_txt
added = (refl, refl)

dns_add_rr-IsValid_example : IsValid (dns_add_rr (dns_msg_reset fresh) 1 slot (some answer)).0
dns_add_rr-IsValid_example =
    dns_add_rr-IsValid (dns_msg_reset fresh) 1 slot (some answer) (dns_msg_reset-IsValid fresh)
      (tt, tt) (omega arith)

dns_add_qdn-IsValid_example : IsValid (dns_add_qdn (dns_msg_reset fresh) ab 1 1).0
dns_add_qdn-IsValid_example =
    dns_add_qdn-IsValid (dns_msg_reset fresh) ab 1 1 (dns_msg_reset-IsValid fresh)

dns_sect_add_rr-Outcome_example : Outcome [] answer (dns_sect_add_rr [] [] slot (some answer))
dns_sect_add_rr-Outcome_example =
    dns_sect_add_rr-Outcome [] [] slot answer (omega arith, (omega arith, tt)) (tt, tt)
      (omega arith)
