-- ===== src/Dns/Decode/Record.antt =====
-- Records and sections: `dns_rr_decode`, `dns_sect_decode`, `decode_an`, `decode_ns` and `decode_ar` of
-- src/dns_proto.c. A section is named by its code, which selects the list of the message.
use c_dns_pkt.Prelude.{
  ℕ, zero, suc, ◌+◌, ◌%◌, ◌^◌, ◌&&◌, List, [], ◌∷◌, ◌++◌, length, ltb, leb, ◌==◌, not,
  if◌then◌else◌, ℤ, pos, negsuc,
}
use c_dns_pkt.Mem.{Bytes, codes}
use c_dns_pkt.Words.{dec_u16, dec_u32}
use c_dns_pkt.Numbers.{decimal}
use c_dns_pkt.Dns.{dns_max_rr, dns_etrunc, dns_erdatalen}
use c_dns_pkt.Dns.Codes.{dns_type_tostr, dns_class_tostr}
use c_dns_pkt.Dns.Message.{Stored, raw, Rr, Msg}
use c_dns_pkt.Dns.Decode.{
  Cmd, ◌>>=◌, ◌>>◌, pure, input, decoder, message, modify_msg, run, call, return_if, seek,
  fail_with,
}
use c_dns_pkt.Dns.Decode.Report.{
  dns_pdu, dns_an, dns_ns, dns_ar, dns_name, dns_hdr, dns_rdata, dns_ec_isrow, shown_code, str_def,
  dec_code_tostr, dns_wmsg,
}
use c_dns_pkt.Dns.Decode.Scratch.{label_to, keep_name, advance, text_at}
use c_dns_pkt.Dns.Decode.Rdata.{Text, here, literal, Rec, error_if, decode_rdata}

-- The records of the section, and the message with a record added to it.
abbrev pub sect_list : ℕ → Msg → List (Rr Stored)
sect_list sect_code msg =
    if sect_code == dns_an then msg.an else if sect_code == dns_ns then msg.ns else msg.ar

abbrev pub sect_add : ℕ → Rr Stored → Msg → Msg
sect_add sect_code rr msg =
    if sect_code == dns_an
    then record msg { an = msg.an ++ rr ∷ [] }
    else if sect_code == dns_ns
    then record msg { ns = msg.ns ++ rr ∷ [] }
    else record msg { ar = msg.ar ++ rr ∷ [] }

-- `if (rr && sect) (*sect->count)++;`
unfoldable pub count_record : Rec → Cmd Unit
count_record v = do
  c ← input
  let rr : Rr Stored = record {
    name = v.rr_name;
    class = v.class;
    ttl = v.rr_ttl;
    rdlen = v.rdlen;
    rdata = v.rdata;
  }
  if c.load_msg then modify_msg (sect_add v.sect_code rr) else pure tt

-- The string that is printed for a pointer.
unfoldable pub shown_text : Text → Cmd Bytes
shown_text (here i) = text_at i
shown_text (literal bs) = pure bs

-- The line for a record.
unfoldable pub describe_record : Rec → Cmd ℤ
describe_record v = do
  rec_name ← shown_text v.name
  let rec_name = str_def rec_name (codes "<null>")
  sect_str ← run (dec_code_tostr v.sect_code)
  class_str ← run (shown_code (dns_class_tostr v.rr_class) v.rr_class)
  type_str ← run (shown_code (dns_type_tostr v.rr_type) v.rr_type)
  rdata_desc ← shown_text v.rdata_desc
  let head = codes "  " ++ sect_str ++ codes ": " ++ rec_name ++ codes " "
  let tail = type_str ++ codes " " ++ rdata_desc ++ codes "\n"
  let middle = decimal v.rr_ttl ++ codes " " ++ class_str ++ codes " "
  dns_wmsg (if v.rr_type == 41 then head ++ tail else head ++ middle ++ tail)

-- The record from its fixed fields on; `wptr` is behind the text of its name.
unfoldable pub decode_fields : ℕ → List Stored → ℕ → ℕ → Stored → Cmd ℤ
decode_fields sect_code held rc wptr rr_name = do
  c ← input
  dec ← decoder
  error_if (ltb (length c.pkt_buf) (dec.offset + 10)) dns_hdr dns_etrunc
  rr_type ← run (dec_u16 c.pkt_buf dec.offset)
  rr_class ← run (dec_u16 c.pkt_buf (dec.offset + 2))
  rr_ttl ← run (dec_u32 c.pkt_buf (dec.offset + 4))
  rdlen ← run (dec_u16 c.pkt_buf (dec.offset + 8))
  let offset = dec.offset + 10
  let rd_end = (offset + rdlen) % 2 ^ 16
  seek offset
  error_if (ltb (length c.pkt_buf) rd_end) dns_rdata dns_etrunc
  v ← decode_rdata (record {
    sect_code = sect_code;
    rr_type = rr_type;
    rr_class = rr_class;
    rr_ttl = rr_ttl;
    rdlen = rdlen;
    rd_end = rd_end;
    held = held;
    wptr = wptr;
    rc = rc;
    name = here 0;
    rdata_desc = literal [];
    rr_name = rr_name;
    class = rr_class;
    rdata = raw rr_type;
  })
  dec ← decoder
  error_if (not (dec.offset == rd_end)) dns_rdata dns_erdatalen
  count_record v
  if c.need_emsg then describe_record v else pure (pos v.rc)

-- `held` are the strings that the bytes of the free record count.
unfoldable pub dns_rr_decode : ℕ → List Stored → Cmd ℤ
dns_rr_decode sect_code held = do
  c ← input
  msg ← message
  return_if (c.load_msg && leb dns_max_rr (length (sect_list sect_code msg))) (negsuc 0)
  rc ← label_to dns_name 0
  wptr ← advance 0 (rc + 1)
  rr_name ← keep_name 0
  decode_fields sect_code held rc wptr rr_name

-- `if (call != 0) return dns_dec_err(dec, DNS_PDU, sect_code, i + DNS_EC_ISROW);`
unfoldable pub or_row : ℕ → ℕ → ℤ → Cmd Unit
or_row sect_code i (pos zero) = pure tt
or_row sect_code i rc = fail_with dns_pdu sect_code (pos (i + dns_ec_isrow))

-- The loop, from row `i` on with `left` records to go.
unfoldable pub sect_rows : ℕ → ℕ → ℕ → Cmd ℤ
sect_rows sect_code zero i = pure (pos 0)
sect_rows sect_code (suc left) i = do
  c ← input
  rc ← call (dns_rr_decode sect_code (c.held sect_code i))
  or_row sect_code i rc
  sect_rows sect_code left (i + 1)

unfoldable pub dns_sect_decode : ℕ → ℕ → Cmd ℤ
dns_sect_decode nrec sect_code = call (sect_rows sect_code nrec 0)

unfoldable pub decode_an : Cmd ℤ
decode_an = do msg ← message; dns_sect_decode msg.hdr.an_count dns_an

unfoldable pub decode_ns : Cmd ℤ
decode_ns = do msg ← message; dns_sect_decode msg.hdr.ns_count dns_ns

unfoldable pub decode_ar : Cmd ℤ
decode_ar = do msg ← message; dns_sect_decode msg.hdr.ar_count dns_ar
