-- ===== src/Dns/Decode.antt =====
-- The decoder of messages of src/dns_proto.c: its state (struct dns_dec), and C code on it. Code
-- runs on the state of the decoder and the message, and may return early.
pub mod Report
pub mod Scratch
pub mod Rdata
pub mod Record
pub mod Message
pub mod Runs
pub mod Query
pub mod Faults
use c_dns_pkt.Prelude.{
  ℕ, Bool, List, [], ◌∷◌, ◌++◌, length, Exec, ok, fault, stuck, ℤ, pos, negsuc, zero, suc,
  if◌then◌else◌, leb,
}
pub use c_dns_pkt.Flow.{Flow, next, leave, and_then, ended}
use c_dns_pkt.Mem.{Bytes}
use c_dns_pkt.Sbuf.{Sbuf}
use c_dns_pkt.Dns.Header.{Header}
use c_dns_pkt.Dns.Message.{Stored, Rr, Msg}

-- struct dns_err. The code of a question's name is negative.
pub record DnsErr : Type 0 where
  pub group : ℕ
  pub field : ℕ
  pub ec : ℤ

-- The fields of struct dns_dec that do not change: the packet and the flags of the caller. The strings
-- that the bytes of the free record count as those of a TXT record, by section and row, are what
-- the memory of the message holds.
pub record Input : Type 0 where
  pub pkt_buf : Bytes
  pub need_emsg : Bool
  pub load_msg : Bool
  pub held : (sect_code row : ℕ) → List Stored

-- The other fields of struct dns_dec. `errs` has the `nerr` errors in use, the last one first, and
-- `msg` is the scratch buffer. `consumed` is never used.
pub record Decoder : Type 0 where
  pub offset : ℕ
  pub errs : List DnsErr
  pub got_edns : ℕ
  pub dnssec_ok : ℕ
  pub udp_size : ℕ
  pub ext_rcode : ℕ
  pub edns_ver : ℕ
  pub emsg : Sbuf
  pub hdr : Header
  pub msg : Bytes

-- The decoder and the message that it fills.
pub record World : Type 0 where
  pub dec : Decoder
  pub msg : Msg

abbrev pub Cmd : Type 0 → Type 0
Cmd A = Input → World → Exec (Flow World A)

infixl 5 ◌>>=◌ ◌>>◌
unfoldable pub ◌>>=◌ : {A B : Type 0} → Cmd A → (A → Cmd B) → Cmd B
◌>>=◌ m f c w = and_then (λ a w'. f a c w') (m c w)

unfoldable pub ◌>>◌ : {A B : Type 0} → Cmd A → Cmd B → Cmd B
◌>>◌ m k c w = and_then (λ a w'. k c w') (m c w)

abbrev pub pure : {A : Type 0} → A → Cmd A
pure a c w = ok (next w a)

-- `return rc;`
abbrev pub return : {A : Type 0} → ℤ → Cmd A
return rc c w = ok (leave w rc)

abbrev pub input : Cmd Input
input c w = ok (next w c)

abbrev pub decoder : Cmd Decoder
decoder c w = ok (next w w.dec)

abbrev pub message : Cmd Msg
message c w = ok (next w w.msg)

abbrev pub modify : (Decoder → Decoder) → Cmd Unit
modify f c w = ok (next (record w { dec = f w.dec }) tt)

abbrev pub modify_msg : (Msg → Msg) → Cmd Unit
modify_msg f c w = ok (next (record w { msg = f w.msg }) tt)

-- Code that does not use the decoder.
abbrev pub run : {A : Type 0} → Exec A → Cmd A
run (ok a) c w = ok (next w a)
run fault c w = fault
run stuck c w = stuck

-- The call of a function, for its code.
unfoldable pub call : Cmd ℤ → Cmd ℤ
call body c w = ended (body c w)

-- `if (b) return rc;`
abbrev pub return_if : Bool → ℤ → Cmd Unit
return_if b rc = if b then return rc else pure tt

-- `dec->offset = offset`
abbrev pub seek : ℕ → Cmd Unit
seek offset = modify (λ dec. record dec { offset = offset })

-- sizeof(dec->msg), 4 * DNS_NAME_SIZE + 100
abbrev pub dns_msg_size : ℕ
dns_msg_size = 1124

abbrev pub dns_max_emsg : ℕ
dns_max_emsg = 10

-- The code that a function returns when `decode_name` fails: a count, or the negated error.
abbrev pub negated : ℕ → ℤ
negated zero = pos 0
negated (suc n) = negsuc n

-- `if (dec->nerr >= ARR_LEN(dec->errs)) return DEC_ERR;`, and the error is added.
unfoldable pub dns_dec_err : ℕ → ℕ → ℤ → Cmd ℤ
dns_dec_err group field ec c w =
    if leb dns_max_emsg (length w.dec.errs)
    then ok (next w (negsuc 0))
    else (let err : DnsErr = record { group = group; field = field; ec = ec } in
        ok (next (record w { dec = record (w.dec) { errs = err ∷ w.dec.errs } }) (pos 0)))

-- `return dns_dec_err(dec, group, field, ec);`
unfoldable pub fail_with : {A : Type 0} → ℕ → ℕ → ℤ → Cmd A
fail_with group field ec = dns_dec_err group field ec >>= λ rc. return rc
