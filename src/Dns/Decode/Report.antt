-- ===== src/Dns/Decode/Report.antt =====
-- Errors of the decoder and their text: enum dns_location, the tables of strings, `dns_wmsg`,
-- `dns_err_tostr` and `dns_dec_genmsg` of src/dns_proto.c. A string that `int_tostr` makes lasts as
-- long as it is used here.
use c_dns_pkt.Prelude.{
  ℕ, zero, suc, ◌+◌, ◌-◌, Bool, List, [], ◌∷◌, ◌++◌, length, take, Option, none, some, Exec, ok,
  ltb, leb, ◌==◌, if◌then◌else◌, ℤ, pos, negsuc,
}
use c_dns_pkt.Mem.{Bytes, write_at, codes}
use c_dns_pkt.Numbers.{int_tostr, hex4}
use c_dns_pkt.Sbuf.{sbuf_rem}
use c_dns_pkt.Dns.{dns_hdr_len}
use c_dns_pkt.Dns.Codes.{find_code}
use c_dns_pkt.Dns.Decode.{DnsErr, Cmd, ◌>>=◌, ◌>>◌, pure, input, decoder, modify, run, dns_msg_size}

-- enum dns_location
abbrev pub dns_pdu : ℕ
dns_pdu = 1

abbrev pub dns_hdr : ℕ
dns_hdr = 2

abbrev pub dns_qd : ℕ
dns_qd = 3

abbrev pub dns_an : ℕ
dns_an = 4

abbrev pub dns_ns : ℕ
dns_ns = 5

abbrev pub dns_ar : ℕ
dns_ar = 6

abbrev pub dns_rr : ℕ
dns_rr = 7

abbrev pub dns_rdata : ℕ
dns_rdata = 8

abbrev pub dns_name : ℕ
dns_name = 9

abbrev pub dns_a : ℕ
dns_a = 10

abbrev pub dns_tns : ℕ
dns_tns = 11

abbrev pub dns_cname : ℕ
dns_cname = 12

abbrev pub dns_soa : ℕ
dns_soa = 13

abbrev pub dns_ptr : ℕ
dns_ptr = 14

abbrev pub dns_hinfo : ℕ
dns_hinfo = 15

abbrev pub dns_mx : ℕ
dns_mx = 16

abbrev pub dns_txt : ℕ
dns_txt = 17

abbrev pub dns_aaaa : ℕ
dns_aaaa = 18

abbrev pub dns_srv : ℕ
dns_srv = 19

abbrev pub dns_opt : ℕ
dns_opt = 20

abbrev pub dns_any : ℕ
dns_any = 21

abbrev pub dec_code_strs : List (ℕ × Bytes)
dec_code_strs =
    (0, codes "NONE")
    ∷ (1, codes "PDU")
    ∷ (2, codes "HDR")
    ∷ (3, codes "Question")
    ∷ (4, codes "Answer")
    ∷ (5, codes "Authority")
    ∷ (6, codes "Additional")
    ∷ (7, codes "Record")
    ∷ (8, codes "RDATA")
    ∷ (9, codes "Name")
    ∷ (10, codes "A")
    ∷ (11, codes "NS")
    ∷ (12, codes "CNAME")
    ∷ (13, codes "SOA")
    ∷ (14, codes "PTR")
    ∷ (15, codes "HINFO")
    ∷ (16, codes "MX")
    ∷ (17, codes "TXT")
    ∷ (18, codes "AAAA")
    ∷ (19, codes "SRV")
    ∷ (20, codes "OPT")
    ∷ (21, codes "ANY")
    ∷ []

abbrev pub dns_ec_strs : List (ℕ × Bytes)
dns_ec_strs =
    (0, codes "Okay")
    ∷ (1, codes "header len")
    ∷ (2, codes "Invalid compression pointer (outside range)")
    ∷ (3, codes "Invalid compression pointer (loop detected)")
    ∷ (4, codes "Name length bigger than pkt size")
    ∷ (5, codes "Name bigger than buf size")
    ∷ (6, codes "Name missing null char")
    ∷ (7, codes "Truncated packet")
    ∷ (8, codes "RDATA len mismatch")
    ∷ (9, codes "field not allowed")
    ∷ (10, codes "No space in buffer")
    ∷ (11, codes "Invalid opcode")
    ∷ (12, codes "Invalid rcode")
    ∷ []

-- The string of a table, or the number.
abbrev pub shown_code : Option Bytes → ℕ → Exec Bytes
shown_code none code = int_tostr (pos code)
shown_code (some str) code = ok str

unfoldable pub dec_code_tostr : ℕ → Exec Bytes
dec_code_tostr code = shown_code (find_code dec_code_strs code) code

abbrev pub dns_ec_isrow : ℕ
dns_ec_isrow = 10000

-- The absolute value.
abbrev pub magnitude : ℤ → ℕ
magnitude (pos n) = n
magnitude (negsuc n) = suc n

unfoldable pub dns_ec_tostr : ℤ → Exec Bytes
dns_ec_tostr ec =
    let ec = magnitude ec in
    let row = if leb dns_ec_isrow ec then ec - dns_ec_isrow + 1 else ec in
    shown_code (find_code dns_ec_strs ec) row

unfoldable pub str_def : Bytes → Bytes → Bytes
str_def [] def_str = def_str
str_def (c ∷ cs) def_str = c ∷ cs

-- What snprintf stores into `avail` bytes: the text is cut, and a zero byte stands behind it.
unfoldable pub printed : ℕ → Bytes → Bytes
printed zero text = []
printed (suc avail) text = take avail text ++ 0 ∷ []

-- `text` is what the format and its arguments give. A text that is cut stays behind `ptr`.
unfoldable pub dns_wmsg : Bytes → Cmd ℤ
dns_wmsg text = do
  dec ← decoder
  let buf = dec.emsg
  let avail = sbuf_rem buf
  mem ← run (write_at buf.ptr (printed avail text) buf.mem)
  let fits = ltb (length text) avail
  let ptr = if fits then buf.ptr + length text else buf.ptr
  modify (λ dec. record dec { emsg = record { mem = mem; ptr = ptr } })
  pure (if fits then pos 0 else negsuc 0)

-- The text in the scratch buffer, or the null pointer as printf shows it.
unfoldable pub dns_err_tostr : DnsErr → Cmd Bytes
dns_err_tostr err = do
  group ← run (dec_code_tostr err.group)
  field ← run (dec_code_tostr err.field)
  error ← run (dns_ec_tostr err.ec)
  let text = group ++ codes " " ++ field ++ codes " " ++ error
  dec ← decoder
  msg ← run (write_at 0 (printed dns_msg_size text) dec.msg)
  modify (λ dec. record dec { msg = msg })
  pure (if ltb (length text) dns_msg_size then text else codes "(null)")

-- The loop over the errors, from the last one on.
unfoldable pub describe_errs : List DnsErr → Cmd Unit
describe_errs [] = pure tt
describe_errs (err ∷ errs) = do
  estr ← dns_err_tostr err
  rc ← dns_wmsg (codes "/ " ++ estr)
  describe_errs errs

abbrev is_empty : List DnsErr → Bool
is_empty [] = Bool.true
is_empty (err ∷ errs) = Bool.false

unfoldable pub dns_dec_genmsg : Cmd ℤ
dns_dec_genmsg = do
  c ← input
  dec ← decoder
  if is_empty dec.errs
      then (do
        rc ←
            (if sbuf_rem dec.emsg == 0
              then dns_wmsg (codes "[ERROR] Missing PDU desc")
              else pure (pos 0))
        pure (pos 0))
      else (do
        rc ← dns_wmsg (codes "[ERROR] ")
        rc ←
            (if leb dns_hdr_len (length c.pkt_buf)
              then dns_wmsg (codes "ID 0x" ++ hex4 dec.hdr.id ++ codes " ")
              else pure (pos 0))
        describe_errs dec.errs
        rc ← dns_wmsg (codes "\n")
        pure (negsuc 0))
