-- ===== src/Dns/Decode/Message.antt =====
-- Questions, the header and whole messages: `dns_qd_decode`, `decode_qd`, `decode_hdr`, `decode_msg`,
-- `dns_validate` and `dns_msg_decode` of src/dns_proto.c.
use c_dns_pkt.Prelude.{
  ℕ, zero, suc, ◌+◌, ◌/◌, ◌^◌, Bool, true, false, ◌&&◌, ◌||◌, List, [], ◌∷◌, ◌++◌, length, take,
  bit_and, none, some, Exec, ok, fault, stuck, ltb, leb, ◌==◌, if◌then◌else◌, ℤ, pos, negsuc,
}
use c_dns_pkt.Mem.{Bytes, Str, codes, write_at}
use c_dns_pkt.Words.{dec_u16}
use c_dns_pkt.Numbers.{decimal, hex4}
use c_dns_pkt.Sbuf.{Sbuf, sbuf_init, sbuf_puticm, sbuf_puts}
use c_dns_pkt.Dns.{dns_hdr_len, dns_max_qd, dns_etrunc}
use c_dns_pkt.Dns.Header.{Header, dns_hdr_decode}
use c_dns_pkt.Dns.Codes.{dns_type_tostr, dns_class_tostr, opcode_strs, rcode_strs, find_code}
use c_dns_pkt.Dns.Message.{Stored, Qd, Msg, dns_msg_reset}
use c_dns_pkt.Dns.Decode.{
  Input, Decoder, World, Flow, next, leave, Cmd, ◌>>=◌, ◌>>◌, pure, return, input, decoder, message,
  modify, modify_msg, run, call, return_if, seek, fail_with, dns_dec_err, dns_msg_size,
}
use c_dns_pkt.Dns.Decode.Report.{
  dns_pdu, dns_hdr, dns_qd, dns_name, shown_code, str_def, dns_wmsg, dns_dec_genmsg,
}
use c_dns_pkt.Dns.Decode.Scratch.{decode_to, keep_name, text_at}
use c_dns_pkt.Dns.Decode.Record.{or_row, decode_an, decode_ns, decode_ar}

-- The error of a name goes on the list as it is returned, negative.
unfoldable pub or_question_error : ℤ → Cmd ℕ
or_question_error (pos n) = pure n
or_question_error (negsuc n) = fail_with dns_qd dns_name (negsuc n)

-- `if (qd)`, the question is filled and counted.
unfoldable pub load_question : ℕ → ℕ → Cmd Unit
load_question qtype qclass = do
  c ← input
  qname ← keep_name 0
  let q : Qd Stored = record { qname = qname; qtype = qtype; qclass = qclass }
  if c.load_msg then modify_msg (λ msg. record msg { qd = msg.qd ++ q ∷ [] }) else pure tt

-- The line for a question.
unfoldable pub describe_question : ℕ → ℕ → Cmd ℤ
describe_question qtype qclass = do
  quest_name ← text_at 0
  let quest_name = str_def quest_name (codes "<null>")
  class_str ← run (shown_code (dns_class_tostr qclass) qclass)
  type_str ← run (shown_code (dns_type_tostr qtype) qtype)
  dns_wmsg (
      codes "  Question: "
      ++ quest_name
      ++ codes " "
      ++ class_str
      ++ codes " "
      ++ type_str
      ++ codes "\n")

unfoldable pub dns_qd_decode : Cmd ℤ
dns_qd_decode = do
  c ← input
  msg ← message
  return_if (c.load_msg && leb dns_max_qd (length msg.qd)) (negsuc 0)
  ec ← decode_to 0
  ec ← or_question_error ec
  dec ← decoder
  if ltb (length c.pkt_buf) (dec.offset + 4) then fail_with dns_qd dns_hdr (pos dns_etrunc) else (do
    qtype ← run (dec_u16 c.pkt_buf dec.offset)
    qclass ← run (dec_u16 c.pkt_buf (dec.offset + 2))
    seek (dec.offset + 4)
    load_question qtype qclass
    if c.need_emsg then describe_question qtype qclass else pure (pos ec))

-- The loop, from row `i` on with `left` questions to go.
unfoldable pub qd_rows : ℕ → ℕ → Cmd ℤ
qd_rows zero i = pure (pos 0)
qd_rows (suc left) i = do rc ← call dns_qd_decode; or_row dns_qd i rc; qd_rows left (i + 1)

unfoldable pub decode_qd : Cmd ℤ
decode_qd = do msg ← message; call (qd_rows msg.hdr.qd_count 0)

-- `flags & mask ? 1 : 0`
abbrev flag : ℕ → ℕ → ℕ
flag flags mask = if bit_and flags mask == 0 then 0 else 1

-- `if (bit) sbuf_puticm(&buf, ' ', STR_LIT(text));`
abbrev put_flag : Bool → Bytes → Sbuf → Cmd Sbuf
put_flag bit text buf =
    if bit then (do (buf, n) ← run (sbuf_puticm buf b' ' text); pure buf) else pure buf

abbrev has : ℕ → ℕ → Bool
has flags mask = flag flags mask == 1

abbrev bad_opcode : ℕ → Bool
bad_opcode opcode = (opcode == 3) || ltb 5 opcode

-- The error codes DNS_EOPCODE and DNS_ERCODE
abbrev pub dns_eopcode : ℕ
dns_eopcode = 11

abbrev pub dns_ercode : ℕ
dns_ercode = 12

-- `dns_dec_err(dec, DNS_PDU, DNS_HDR, ec);` under a condition, its result not used.
abbrev note_if : Bool → ℕ → Cmd Unit
note_if b ec = if b then (do rc ← dns_dec_err dns_pdu dns_hdr (pos ec); pure tt) else pure tt

-- The flags of a response.
unfoldable pub response_flags : ℕ → ℕ → Sbuf → Cmd Sbuf
response_flags flags opcode buf = do
  let rcode = bit_and flags 0x000F
  buf ← put_flag (has flags 0x0400) (codes "AS:1") buf
  buf ← put_flag (has flags 0x0200) (codes "TC:1") buf
  buf ← put_flag (has flags 0x0100) (codes "RD:1") buf
  buf ← put_flag (has flags 0x0080) (codes "RA:1") buf
  rcode_str ← run (shown_code (find_code rcode_strs rcode) rcode)
  buf ← put_flag true (codes "RCODE:") buf
  (buf, n) ← run (sbuf_puts buf (some rcode_str))
  buf ← put_flag (bad_opcode opcode) (codes "bad-opcode") buf
  buf ← put_flag (ltb 10 rcode) (codes "bad-rcode") buf
  note_if (ltb 10 rcode) dns_ercode
  pure buf

-- The flags of a query.
unfoldable pub query_flags : ℕ → ℕ → Sbuf → Cmd Sbuf
query_flags flags opcode buf = do
  buf ← put_flag (has flags 0x0200) (codes "TC:1") buf
  buf ← put_flag (has flags 0x0100) (codes "RD:1") buf
  buf ← put_flag (has flags 0x0800) (codes "CD:1") buf
  buf ← put_flag (has flags 0x0020) (codes "AD:1") buf
  buf ← put_flag (bad_opcode opcode) (codes "bad-opcode") buf
  note_if (bad_opcode opcode) dns_eopcode
  pure buf

abbrev zeros : ℕ → Bytes
zeros zero = []
zeros (suc n) = 0 ∷ zeros n

-- The line for the header. `tmp` has 100 bytes.
unfoldable pub describe_hdr : Header → Cmd ℤ
describe_hdr hdr = do
  modify (λ dec. record dec { hdr = hdr })
  let flags = hdr.flags
  let qr = flag flags 0x8000
  let opcode = bit_and flags 0x7800 / 2 ^ 11
  opcode_str ← run (shown_code (find_code opcode_strs opcode) opcode)
  let buf = sbuf_init (some (zeros 100))
  buf ← (if qr == 1 then response_flags flags opcode buf else query_flags flags opcode buf)
  dns_wmsg (
      codes "["
      ++ (if qr == 1 then codes "RESPONSE" else codes "QUERY")
      ++ codes "] ID 0x"
      ++ hex4 hdr.id
      ++ codes " QR:"
      ++ decimal qr
      ++ codes " OPCODE:"
      ++ opcode_str
      ++ codes " "
      ++ take buf.ptr buf.mem
      ++ codes "\n")

unfoldable pub decode_hdr : Cmd ℤ
decode_hdr = do
  c ← input
  msg ← message
  (hdr, rc) ← run (dns_hdr_decode msg.hdr c.pkt_buf)
  modify_msg (λ msg. record msg { hdr = hdr })
  if rc == 0
      then (do
        dec ← decoder
        seek (dec.offset + dns_hdr_len)
        if c.need_emsg then describe_hdr hdr else pure (pos 0))
      else fail_with dns_pdu dns_hdr (pos rc)

-- `if (rc) return rc;`
unfoldable pub return_nonzero : ℤ → Cmd Unit
return_nonzero (pos zero) = pure tt
return_nonzero (pos (suc n)) = return (pos (suc n))
return_nonzero (negsuc n) = return (negsuc n)

-- `if ((rc = part(dec, msg))) return rc;`
unfoldable pub passed : Cmd ℤ → Cmd Unit
passed part = call part >>= return_nonzero

unfoldable pub decode_msg : Cmd ℤ
decode_msg = do
  modify_msg dns_msg_reset
  passed decode_hdr
  passed decode_qd
  passed decode_an
  passed decode_ns
  passed decode_ar
  c ← input
  dec ← decoder
  if c.need_emsg && ltb dec.udp_size (length c.pkt_buf)
      then dns_wmsg (
          codes "UDP message: packet-length "
          ++ decimal (length c.pkt_buf)
          ++ codes " > max size "
          ++ decimal dec.udp_size
          ++ codes "\n")
      else pure (pos 0)

abbrev pub dns_max_udp : ℕ
dns_max_udp = 512

abbrev no_header : Header
no_header = record { id = 0; flags = 0; qd_count = 0; an_count = 0; ns_count = 0; ar_count = 0 }

-- The decoder at first; what is not named is zero.
abbrev pub dec_start : Str → Decoder
dec_start emsg = record {
  offset = 0;
  errs = [];
  got_edns = 0;
  dnssec_ok = 0;
  udp_size = dns_max_udp;
  ext_rcode = 0;
  edns_ver = 0;
  emsg = sbuf_init emsg;
  hdr = no_header;
  msg = zeros dns_msg_size;
}

-- The code that a run returns, with what it leaves.
abbrev pub returned : Exec (Flow World ℤ) → Exec (World × ℤ)
returned (ok (next w rc)) = ok (w, rc)
returned (ok (leave w rc)) = ok (w, rc)
returned fault = fault
returned stuck = stuck

abbrev no_msg : Msg
no_msg = record { hdr = no_header; names = []; qd = []; an = []; ns = []; ar = [] }

-- `if (ec && !rc) rc = ec;`
abbrev either_code : ℤ → ℤ → ℤ
either_code (pos zero) ec = ec
either_code rc ec = rc

unfoldable pub validate_body : Cmd ℤ
validate_body = do rc ← call decode_msg; ec ← call dns_dec_genmsg; pure (either_code rc ec)

-- `if (emsg) *emsg = '\0';`
abbrev cleared : Str → Exec Str
cleared none = ok none
cleared (some mem) = elim (write_at 0 (0 ∷ []) mem) [
  | ok mem ↦ ok (some mem)
  | fault ↦ fault
  | stuck ↦ stuck
]

-- The decoder at the end, whose `emsg` is the caller's buffer, and the code.
unfoldable pub dns_validate : Bytes → Str → Exec (World × ℤ)
dns_validate buf emsg =
    let c : Input = record {
      pkt_buf = buf;
      need_emsg = true;
      load_msg = false;
      held = λ sc row. [];
    } in
    elim (cleared emsg) [
      | ok emsg ↦ returned (validate_body c (record { dec = dec_start emsg; msg = no_msg }))
      | fault ↦ fault
      | stuck ↦ stuck
    ]

-- The message after the call, and the code.
unfoldable pub dns_msg_decode : Msg → Bytes → (ℕ → ℕ → List Stored) → Exec (World × ℤ)
dns_msg_decode msg buf held =
    let c : Input = record { pkt_buf = buf; need_emsg = false; load_msg = true; held = held } in
    returned (decode_msg c (record { dec = dec_start none; msg = msg }))
