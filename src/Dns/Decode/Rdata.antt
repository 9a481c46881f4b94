-- ===== src/Dns/Decode/Rdata.antt =====
-- The switch of `dns_rr_decode` of src/dns_proto.c: the data of a record, one function for each type.
use c_dns_pkt.Prelude.{
  ℕ, zero, suc, ◌+◌, ◌-◌, ◌/◌, ◌%◌, ◌^◌, Bool, List, [], ◌∷◌, ◌++◌, length, take, drop, bit_and,
  none, stuck, ltb, leb, ◌==◌, not, if◌then◌else◌, pos, negsuc,
}
use c_dns_pkt.Mem.{Bytes, byte_at, read_at, codes}
use c_dns_pkt.Words.{dec_u16, dec_u32}
use c_dns_pkt.Numbers.{decimal}
use c_dns_pkt.Ip4.{ip4_str_encode}
use c_dns_pkt.Dns.{dns_max_txt, dns_erdatalen, dns_emsgfmt}
use c_dns_pkt.Dns.Message.{
  Stored, Rdata, a, ns, cname, soa, ptr, hinfo, mx, txt, aaaa, srv, opt, raw, up_to_zero,
}
use c_dns_pkt.Dns.Decode.{
  Cmd, ◌>>=◌, ◌>>◌, pure, return, input, decoder, modify, run, seek, dns_msg_size, fail_with,
}
use c_dns_pkt.Dns.Decode.Report.{
  dns_rr, dns_ar, dns_a, dns_tns, dns_cname, dns_soa, dns_hinfo, dns_mx, dns_txt, dns_aaaa, dns_srv,
  dns_opt, printed,
}
use c_dns_pkt.Dns.Decode.Scratch.{
  scratch, label_to, put_string, not_null, keep_name, keep_bytes, advance, print_to, describe,
  text_at,
}

-- A `const char *` to print: an index into the scratch buffer, or a literal.
pub data Text : Type 0 where
  here : ℕ → Text
  literal : Bytes → Text

-- The local variables, and the free record of the section that is filled when `rr` is set. `held`
-- are the strings that its bytes count already.
pub record Rec : Type 0 where
  pub sect_code : ℕ
  pub rr_type : ℕ
  pub rr_class : ℕ
  pub rr_ttl : ℕ
  pub rdlen : ℕ
  pub rd_end : ℕ
  pub held : List Stored
  pub wptr : ℕ
  pub rc : ℕ
  pub name : Text
  pub rdata_desc : Text
  pub rr_name : Stored
  pub class : ℕ
  pub rdata : Rdata Stored

-- `if (b) return dns_dec_err(dec, DNS_RR, field, ec);`
unfoldable pub error_if : Bool → ℕ → ℕ → Cmd Unit
error_if b field ec = if b then fail_with dns_rr field (pos ec) else pure tt

-- `if (rr) memcpy(dst, rdata, len);`
unfoldable pub keep_mem : ℕ → Cmd Bytes
keep_mem len = do
  c ← input
  dec ← decoder
  if c.load_msg then run (read_at dec.offset len c.pkt_buf) else pure []

-- The four bytes at `rdata` are printed as an address.
unfoldable pub print_ip4 : ℕ → ℕ → Cmd Text
print_ip4 rdata wptr = do
  c ← input
  dec ← decoder
  a0 ← run (byte_at c.pkt_buf rdata)
  a1 ← run (byte_at c.pkt_buf (rdata + 1))
  a2 ← run (byte_at c.pkt_buf (rdata + 2))
  a3 ← run (byte_at c.pkt_buf (rdata + 3))
  (str, len) ← run (ip4_str_encode a0 a1 a2 a3 (drop wptr dec.msg) (dns_msg_size - wptr))
  modify (λ dec. record dec { msg = take wptr dec.msg ++ str })
  pure (if len == 0 then literal (codes "???") else here wptr)

unfoldable pub describe_ip4 : ℕ → Rec → Cmd Text
describe_ip4 rdata v = do
  c ← input
  if c.need_emsg then print_ip4 rdata v.wptr else pure v.rdata_desc

unfoldable pub decode_a : Rec → Cmd Rec
decode_a v = do
  error_if (not (v.rdlen == 4)) dns_a dns_erdatalen
  dec ← decoder
  addr ← keep_mem 4
  seek (dec.offset + 4)
  desc ← describe_ip4 dec.offset v
  pure (record v { rdata = a addr; rdata_desc = desc })

-- Type AAAA is described by its first four bytes.
unfoldable pub decode_aaaa : Rec → Cmd Rec
decode_aaaa v = do
  error_if (not (v.rdlen == 16)) dns_aaaa dns_erdatalen
  dec ← decoder
  addr ← keep_mem 16
  seek (dec.offset + 16)
  desc ← describe_ip4 dec.offset v
  pure (record v { rdata = aaaa addr; rdata_desc = desc })

-- The types whose data is one name.
unfoldable pub decode_one_name : ℕ → (Stored → Rdata Stored) → Rec → Cmd Rec
decode_one_name field rdata v = do
  rc ← label_to field v.wptr
  s ← keep_name v.wptr
  wptr ← advance v.wptr rc
  pure (record v { rc = rc; wptr = wptr; rdata = rdata s; rdata_desc = here v.wptr })

-- `rname` is stored, and `mname` is tested.
unfoldable pub keep_rname : ℕ → Stored → Cmd Stored
keep_rname wptr mname = do
  c ← input
  if c.load_msg
      then (do s ← text_at wptr; r ← put_string s; m ← not_null mname; pure r)
      else pure none

-- One of the five numbers of an SOA record, at the offset of the decoder.
unfoldable pub soa_value : Bytes → ℕ × ℕ → Cmd (ℕ × ℕ)
soa_value label (wptr, at) = do
  c ← input
  val ← run (dec_u32 c.pkt_buf at)
  wptr ← describe wptr (codes " " ++ label ++ codes "=" ++ decimal val)
  pure (wptr, val)

unfoldable pub decode_soa : Rec → Cmd Rec
decode_soa v = do
  wptr ← describe v.wptr (codes "MNAME=")
  rc ← label_to dns_soa wptr
  mname ← keep_name wptr
  wptr ← advance wptr rc
  wptr ← describe wptr (codes " RNAME=")
  rc ← label_to dns_soa wptr
  rname ← keep_rname wptr mname
  wptr ← advance wptr rc
  dec ← decoder
  error_if (ltb v.rd_end (dec.offset + 20)) dns_soa dns_erdatalen
  seek (dec.offset + 20)
  (wptr, serial) ← soa_value (codes "serial") (wptr, dec.offset)
  (wptr, refresh) ← soa_value (codes "refresh") (wptr, dec.offset + 4)
  (wptr, retry) ← soa_value (codes "retry") (wptr, dec.offset + 8)
  (wptr, expire) ← soa_value (codes "expire") (wptr, dec.offset + 12)
  (wptr, min_ttl) ← soa_value (codes "min_ttl") (wptr, dec.offset + 16)
  pure (record v {
    rc = rc;
    wptr = wptr;
    rdata = soa mname rname serial refresh retry expire min_ttl;
    rdata_desc = here v.wptr;
  })

-- `len = dec->pkt_buf[dec->offset++];` and the test of it.
unfoldable pub string_len : ℕ → ℕ → Cmd ℕ
string_len field rd_end = do
  c ← input
  dec ← decoder
  len ← run (byte_at c.pkt_buf dec.offset)
  seek (dec.offset + 1)
  error_if (ltb rd_end (dec.offset + 1 + len)) field dns_erdatalen
  pure len

-- `%.*s` of a string of the packet, behind `label`.
unfoldable pub describe_bytes : Bytes → ℕ → ℕ → Cmd ℕ
describe_bytes label len wptr = do
  c ← input
  dec ← decoder
  if c.need_emsg
      then (do
        str ← run (read_at dec.offset len c.pkt_buf)
        print_to wptr (label ++ up_to_zero str))
      else pure wptr

-- `dec->offset += len`
unfoldable pub skip : ℕ → Cmd Unit
skip len = modify (λ dec. record dec { offset = dec.offset + len })

unfoldable pub decode_hinfo : Rec → Cmd Rec
decode_hinfo v = do
  error_if (ltb v.rdlen 2) dns_hinfo dns_erdatalen
  len ← string_len dns_hinfo v.rd_end
  wptr ← describe_bytes (codes " cpu=") len v.wptr
  cpu_str ← keep_bytes len
  skip len
  dec ← decoder
  error_if (leb v.rd_end dec.offset) dns_hinfo dns_erdatalen
  len ← string_len dns_hinfo v.rd_end
  wptr ← describe_bytes (codes " os-str=") len wptr
  os_str ← keep_bytes len
  skip len
  pure (record v { wptr = wptr; rdata = hinfo cpu_str os_str; rdata_desc = here v.wptr })

unfoldable pub decode_mx : Rec → Cmd Rec
decode_mx v = do
  error_if (ltb v.rdlen 3) dns_mx dns_erdatalen
  c ← input
  dec ← decoder
  pref ← run (dec_u16 c.pkt_buf dec.offset)
  skip 2
  wptr ← describe v.wptr (codes "pref " ++ decimal pref ++ codes " ")
  rc ← label_to dns_mx wptr
  s ← keep_name wptr
  wptr ← advance wptr rc
  pure (record v { rc = rc; wptr = wptr; rdata = mx pref s; rdata_desc = here v.wptr })

-- Under `if (rr)`, a string of a TXT record is added to those that the record counts.
unfoldable pub add_txt : ℕ → List Stored → Cmd (List Stored)
add_txt len strs = do
  c ← input
  if c.load_msg
      then (if leb dns_max_txt (length strs)
          then return (negsuc 0)
          else (do s ← keep_bytes len; pure (strs ++ s ∷ [])))
      else pure strs

-- The loop of a TXT record; each round takes a byte at least.
unfoldable pub txt_loop : ℕ → ℕ → ℕ → List Stored → Cmd (ℕ × List Stored)
txt_loop zero rd_end wptr strs = run stuck
txt_loop (suc fuel) rd_end wptr strs = do
  dec ← decoder
  if ltb dec.offset rd_end
      then (do
        len ← string_len dns_txt rd_end
        wptr ← describe_bytes (codes " txt=") len wptr
        strs ← add_txt len strs
        skip len
        txt_loop fuel rd_end wptr strs)
      else pure (wptr, strs)

unfoldable pub decode_txt : Rec → Cmd Rec
decode_txt v = do
  dec ← decoder
  (wptr, strs) ← txt_loop (suc (v.rd_end - dec.offset)) v.rd_end v.wptr v.held
  pure (record v { wptr = wptr; rdata = txt strs; rdata_desc = here v.wptr })

unfoldable pub decode_srv : Rec → Cmd Rec
decode_srv v = do
  error_if (ltb v.rdlen 7) dns_srv dns_erdatalen
  c ← input
  dec ← decoder
  prior ← run (dec_u16 c.pkt_buf dec.offset)
  weight ← run (dec_u16 c.pkt_buf (dec.offset + 2))
  port ← run (dec_u16 c.pkt_buf (dec.offset + 4))
  skip 6
  wptr ← describe v.wptr (
      codes "Priority "
      ++ decimal prior
      ++ codes " Weight "
      ++ decimal weight
      ++ codes " port "
      ++ decimal port
      ++ codes " ")
  rc ← label_to dns_srv wptr
  s ← keep_name wptr
  wptr ← advance wptr rc
  pure
      (record v { rc = rc; wptr = wptr; rdata = srv prior weight port s; rdata_desc = here v.wptr })

-- `if (*name == '.') name = DNS_ROOT_STR;`
unfoldable pub root_text : Text → Cmd Text
root_text (literal bs) = pure (literal bs)
root_text (here i) = do
  dec ← decoder
  b ← run (byte_at dec.msg i)
  pure (if b == b'.' then literal (codes "<Root>") else here i)

-- The class and the ttl of an OPT record hold the EDNS fields. Its name is stored a second time, and
-- its text is printed in both modes. `wptr` is not used after it.
unfoldable pub decode_opt : Rec → Cmd Rec
decode_opt v = do
  error_if (not (v.sect_code == dns_ar)) dns_opt dns_emsgfmt
  let ext_rcode = v.rr_ttl / 2 ^ 24 % 2 ^ 8
  let version = v.rr_ttl / 2 ^ 16 % 2 ^ 8
  let do_bit = if bit_and v.rr_ttl 0x8000 == 0 then 0 else 1
  let z_bits = bit_and v.rr_ttl 0x7fff
  rr_name ← keep_name 0
  name ← root_text v.name
  let text =
      codes "UDP-size:"
      ++ decimal v.rr_class
      ++ codes " Ext-RCODE:"
      ++ decimal ext_rcode
      ++ codes " EDNS0:"
      ++ decimal version
      ++ codes " DNSEC-OK:"
      ++ decimal do_bit
  scratch v.wptr (printed (dns_msg_size - v.wptr) text)
  modify (λ dec. record dec {
    got_edns = 1;
    udp_size = v.rr_class;
    ext_rcode = ext_rcode;
    edns_ver = version;
    dnssec_ok = do_bit;
    offset = v.rd_end;
  })
  pure (record v {
    rc = length text;
    name = name;
    rr_name = rr_name;
    class = 0;
    rdata = opt v.rr_class ext_rcode version do_bit z_bits;
    rdata_desc = here v.wptr;
  })

-- Type ANY, and every type that is not known.
unfoldable pub decode_other : Rec → Cmd Rec
decode_other v = do skip v.rdlen; pure (record v { rdata = raw v.rr_type })

unfoldable pub decode_rdata : Rec → Cmd Rec
decode_rdata v =
    if v.rr_type == 1
    then decode_a v
    else if v.rr_type == 2
    then decode_one_name dns_tns ns v
    else if v.rr_type == 5
    then decode_one_name dns_cname cname v
    else if v.rr_type == 6
    then decode_soa v
    else if v.rr_type == 12
    then decode_one_name dns_cname ptr v
    else if v.rr_type == 13
    then decode_hinfo v
    else if v.rr_type == 15
    then decode_mx v
    else if v.rr_type == 16
    then decode_txt v
    else if v.rr_type == 28
    then decode_aaaa v
    else if v.rr_type == 33
    then decode_srv v
    else if v.rr_type == 41
    then decode_opt v
    else decode_other v
