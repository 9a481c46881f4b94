-- ===== src/Tests/Decode.antt =====
-- Messages decoded on concrete inputs.
use c_dns_pkt.Prelude.{
  ℕ, ◌≡◌, ◌+◌, ◌*◌, ◌^◌, refl, Bool, true, false, ◌&&◌, ltb, bit_or, [], ◌∷◌, length, Exec, ℤ,
  fault, ok, stuck, Option, some, none, pos, arith,
}
use c_dns_pkt.Dns.Decode.{World, Input, ◌>>=◌, ◌>>◌, call, dns_dec_err, fail_with}
use c_dns_pkt.Dns.Decode.Report.{
  dec_code_tostr, dns_ec_tostr, str_def, printed, dns_wmsg, dns_err_tostr, describe_errs,
  dns_dec_genmsg,
}
use c_dns_pkt.Dns.Decode.Scratch.{
  scratch, settle, decode_to, dns_add_str, fix_label, or_return, or_error, label_to, text_at,
  put_string, not_null, keep_name, keep_bytes, advance, print_to, describe,
}
use c_dns_pkt.Dns.Decode.Rdata.{
  error_if, keep_mem, print_ip4, describe_ip4, decode_a, decode_aaaa, decode_one_name, keep_rname,
  soa_value, decode_soa, string_len, describe_bytes, skip, decode_hinfo, decode_mx, add_txt,
  txt_loop, decode_txt, decode_srv, root_text, decode_opt, decode_other, decode_rdata,
}
use c_dns_pkt.Dns.Decode.Record.{
  count_record, shown_text, describe_record, decode_fields, dns_rr_decode, or_row, sect_rows,
  dns_sect_decode, decode_an, decode_ns, decode_ar,
}
use c_dns_pkt.Dns.Decode.Message.{
  or_question_error, load_question, describe_question, dns_qd_decode, qd_rows, decode_qd,
  response_flags, query_flags, describe_hdr, decode_hdr, return_nonzero, passed, decode_msg,
  validate_body, dns_validate, dns_msg_decode,
}
use c_dns_pkt.Dns.Name.Decode.{
  emit, land, jump, dot_follows, add_dot, copy_label, label, round, finish, name_loop, decode_name,
}
use c_dns_pkt.Dns.Header.{dns_hdr_decode, dns_hdr_reset}
use c_dns_pkt.Words.{dec_u16, dec_u32}
use c_dns_pkt.Mem.{Bytes, splice, write_at, read_at, until_zero, c_string}
use c_dns_pkt.Ip4.{ip4_str_encode, uint8_toa}
use c_dns_pkt.Sbuf.{
  sbuf_init, sbuf_rem, sbuf_puticm, sbuf_puts, sbuf_putm, sbuf_putcm, sbuf_mksp, sbuf_pos,
}
use c_dns_pkt.Numbers.{decimal_digits, digit_loop, put_digits, itoa, int_tostr}
use c_dns_pkt.Dns.Codes.{find_code, dns_type_tostr, dns_class_tostr}
use c_dns_pkt.Dns.Message.{Msg, dns_msg_reset, msg_store_str}
use c_dns_pkt.Dns.{dns_ehdrlen}
use c_dns_pkt.Dns.Decode.Report.{dns_pdu, dns_hdr}
use c_dns_pkt.Dns.Decode.Message.{dec_start}
use c_dns_pkt.Dns.Decode.Query.{dns_msg_decode-short}
use c_dns_pkt.Dns.Decode.Faults.{decode_fields-mx_fault, txt_loop-overflow}
use c_dns_pkt.Numbers.{u32_tostr}
use c_dns_pkt.Numbers.Decimal.{int_tostr-fault, u32_tostr-fault}

abbrev old_msg : Msg
old_msg = record {
  hdr = record { id = 7; flags = 7; qd_count = 7; an_count = 7; ns_count = 7; ar_count = 7 };
  names = 7 ∷ [];
  qd = [];
  an = [];
  ns = [];
  ar = [];
}

-- A response with one question and two addresses.
abbrev reply : Bytes
reply =
    0x12 ∷ 0x34 ∷ 0x81 ∷ 0x80 ∷ 0 ∷ 1 ∷ 0 ∷ 2 ∷ 0 ∷ 0 ∷ 0 ∷ 0 ∷ 1 ∷ b'a' ∷ 0 ∷ 0 ∷ 1 ∷ 0 ∷ 1 ∷ 0xC0
    ∷ 0x0C ∷ 0 ∷ 1 ∷ 0 ∷ 1 ∷ 0 ∷ 0 ∷ 0 ∷ 0 ∷ 0 ∷ 4 ∷ 10 ∷ 0 ∷ 0 ∷ 1 ∷ 0xC0 ∷ 0x0C ∷ 0 ∷ 1 ∷ 0 ∷ 1
    ∷ 0 ∷ 0 ∷ 0 ∷ 0 ∷ 0 ∷ 4 ∷ 10 ∷ 0 ∷ 0 ∷ 2 ∷ []

-- The words of a packet from position `k` on, checked one by one.
abbrev words_fit : ℕ → Bytes → Bool
words_fit k [] = true
words_fit k (b0 ∷ []) = true
words_fit k (b0 ∷ b1 ∷ bs) =
    ltb (k + 2 + bit_or (b0 * 2 ^ 8) b1) (2 ^ 16) && words_fit (k + 1) (b1 ∷ bs)

abbrev answers : Exec (World × ℤ) → Option (ℕ × ℤ)
answers (ok (w, rc)) = some (length w.msg.an, rc)
answers fault = none
answers stuck = none

-- One of the two addresses is loaded.
reply_run : answers (dns_msg_decode old_msg reply (λ s r. [])) ≡ some (1, pos 0)
unfolding ◌>>=◌ ◌>>◌ call dns_dec_err fail_with dec_code_tostr dns_ec_tostr str_def printed dns_wmsg
    dns_err_tostr describe_errs dns_dec_genmsg scratch settle decode_to dns_add_str fix_label
    or_return or_error label_to text_at put_string not_null keep_name keep_bytes advance print_to
    describe error_if keep_mem print_ip4 describe_ip4 decode_a decode_aaaa decode_one_name
    keep_rname soa_value decode_soa string_len describe_bytes skip decode_hinfo decode_mx add_txt
    txt_loop decode_txt decode_srv root_text decode_opt decode_other decode_rdata count_record
    shown_text describe_record decode_fields dns_rr_decode or_row sect_rows dns_sect_decode
    decode_an decode_ns decode_ar or_question_error load_question describe_question dns_qd_decode
    qd_rows decode_qd response_flags query_flags describe_hdr decode_hdr return_nonzero passed
    decode_msg validate_body dns_validate dns_msg_decode emit land jump dot_follows add_dot
    copy_label label round finish name_loop decode_name dns_hdr_decode dns_hdr_reset dec_u16 dec_u32
    splice write_at read_at until_zero c_string ip4_str_encode uint8_toa sbuf_init sbuf_rem
    sbuf_puticm sbuf_puts sbuf_putm sbuf_putcm sbuf_mksp sbuf_pos decimal_digits digit_loop
    put_digits itoa int_tostr find_code dns_type_tostr dns_class_tostr dns_msg_reset msg_store_str
reply_run = refl

dns_msg_decode-short_example :
    (w : World) × (dns_msg_decode old_msg (1 ∷ 2 ∷ []) (λ sc row. []) ≡ ok (w, pos 0))
    × (w.msg ≡ dns_msg_reset old_msg)
    × (w.dec.errs ≡ record { group = dns_pdu; field = dns_hdr; ec = pos dns_ehdrlen } ∷ [])
dns_msg_decode-short_example =
    dns_msg_decode-short old_msg (1 ∷ 2 ∷ []) (λ sc row. []) (omega arith)

-- The fixed fields of a record of type MX, at the end of a packet.
abbrev last_record : Input
last_record = record {
  pkt_buf = 0 ∷ 15 ∷ 0 ∷ 1 ∷ 0 ∷ 0 ∷ 0 ∷ 0 ∷ 0xFF ∷ 0xFF ∷ [];
  need_emsg = false;
  load_msg = true;
  held = λ sc row. [];
}

abbrev start : World
start = record { dec = dec_start none; msg = old_msg }

decode_fields-mx_fault_example : decode_fields 4 [] 1 2 none last_record start ≡ fault
unfolding dec_u16 dec_u32
decode_fields-mx_fault_example =
    decode_fields-mx_fault 4 [] 1 2 none last_record start 1 0 0xFFFF (omega arith) refl refl refl
      refl (omega arith) (omega arith)

int_tostr-fault_example : int_tostr (pos 2147483647) ≡ fault
int_tostr-fault_example = int_tostr-fault 2147483647 (omega arith)

u32_tostr-fault_example : u32_tostr 7 ≡ fault
u32_tostr-fault_example = u32_tostr-fault 7

-- A description of strings that is at its end.
abbrev describing : Input
describing = record {
  pkt_buf = 4 ∷ b'a' ∷ b'b' ∷ b'c' ∷ b'd' ∷ [];
  need_emsg = true;
  load_msg = false;
  held = λ sc row. [];
}

txt_loop-overflow_example : txt_loop 6 5 1120 [] describing start ≡ fault
unfolding read_at
txt_loop-overflow_example =
    txt_loop-overflow 5 5 1120 [] describing start 4 (b'a' ∷ b'b' ∷ b'c' ∷ b'd' ∷ []) refl refl
      (omega arith) refl (omega arith) refl refl (omega arith) (omega arith)
