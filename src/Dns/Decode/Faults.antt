-- ===== src/Dns/Decode/Faults.antt =====
-- Records whose length passes the end of a uint16_t, in `dns_rr_decode` of src/dns_proto.c.
use c_dns_pkt.Prelude.{
  ℕ, zero, suc, ◌+◌, ◌-◌, ◌<◌, ◌%◌, ◌^◌, ◌≤◌, ◌≡◌, refl, false, true, List, [], ◌∷◌, ◌++◌, length,
  get_elem?, ok, fault, none, ltb, leb, arith,
}
use c_dns_pkt.Mem.{Bytes, byte_at, read_at, codes}
use c_dns_pkt.Mem.Laws.{write_at_lem}
use c_dns_pkt.Words.{dec_u16, dec_u32}
use c_dns_pkt.Dns.Message.{Stored, up_to_zero}
use c_dns_pkt.Dns.Decode.{Input, World, ◌>>=◌, ◌>>◌, dns_msg_size}
use c_dns_pkt.Dns.Decode.Report.{printed}
use c_dns_pkt.Dns.Decode.Scratch.{scratch, advance, print_to}
use c_dns_pkt.Dns.Decode.Rdata.{
  error_if, decode_mx, decode_rdata, string_len, describe_bytes, txt_loop,
}
use c_dns_pkt.Dns.Decode.Record.{decode_fields}
use c_dns_pkt.Dns.Decode.Runs.Switch.{printed_fits}

get_elem?-end : (bs : Bytes) (i : ℕ) → length bs ≤ i → get_elem? bs i ≡ none
get_elem?-end [] i h = refl
get_elem?-end (b ∷ bs) zero h = absurd (omega arith)
get_elem?-end (b ∷ bs) (suc i) h = get_elem?-end bs i (omega arith)

dec_u16-end : (buf : Bytes) (i : ℕ) → length buf ≤ i → dec_u16 buf i ≡ fault
unfolding dec_u16
dec_u16-end buf i h = rw (get_elem?-end buf i h) refl

-- A record of type MX whose fixed fields end the packet is read past its end. The length of the data
-- is at least 3, and such that the end of the data, cut to 16 bits, lies within the packet: then the
-- test against the packet passes, and the preference is read behind the packet.
pub decode_fields-mx_fault :
    (sect_code : ℕ) (held : List Stored) (rc wptr : ℕ) (rr_name : Stored) (c : Input) (w : World)
    (class ttl rdlen : ℕ)
    → w.dec.offset + 10 ≡ length c.pkt_buf
    → dec_u16 c.pkt_buf w.dec.offset ≡ ok 15
    → dec_u16 c.pkt_buf (w.dec.offset + 2) ≡ ok class
    → dec_u32 c.pkt_buf (w.dec.offset + 4) ≡ ok ttl
    → dec_u16 c.pkt_buf (w.dec.offset + 8) ≡ ok rdlen
    → 3 ≤ rdlen
    → (w.dec.offset + 10 + rdlen) % 2 ^ 16 ≤ length c.pkt_buf
    → decode_fields sect_code held rc wptr rr_name c w ≡ fault
unfolding decode_fields decode_rdata decode_mx error_if ◌>>=◌ ◌>>◌
decode_fields-mx_fault sect_code held rc wptr rr_name c w class ttl rdlen ends t cl tt' len long
      wraps =
    let whole : ltb (length c.pkt_buf) (w.dec.offset + 10) ≡ false = ground arith in
    let inside : ltb (length c.pkt_buf) ((w.dec.offset + 10 + rdlen) % 2 ^ 16) ≡ false =
      ground arith in
    let three : ltb rdlen 3 ≡ false = ground arith in
    let behind = dec_u16-end c.pkt_buf (w.dec.offset + 10) (omega arith) in
    rw (whole, t, cl, tt', len, inside, three, behind) refl

-- A description that does not fit. In the mode that describes the packet, a string of a TXT record
-- that lies in its data, and whose text with the five characters of its label is longer than what
-- is left of the scratch buffer, moves the pointer past the end of the buffer.
pub txt_loop-overflow :
    (fuel rd_end wptr : ℕ) (strs : List Stored) (c : Input) (w : World) (len : ℕ) (str : Bytes)
    → c.need_emsg ≡ true
    → length w.dec.msg ≡ dns_msg_size
    → w.dec.offset < rd_end
    → byte_at c.pkt_buf w.dec.offset ≡ ok len
    → w.dec.offset + 1 + len ≤ rd_end
    → read_at (w.dec.offset + 1) len c.pkt_buf ≡ ok str
    → up_to_zero str ≡ str
    → wptr ≤ dns_msg_size
    → dns_msg_size < wptr + 5 + length str
    → txt_loop (suc fuel) rd_end wptr strs c w ≡ fault
unfolding txt_loop string_len describe_bytes print_to advance error_if scratch ◌>>=◌ ◌>>◌
txt_loop-overflow fuel rd_end wptr strs c w len str loud sized more byte fits read chars start
      over =
    let text = codes " txt=" ++ str in
    let going : ltb w.dec.offset rd_end ≡ true = ground arith in
    let within : ltb rd_end (w.dec.offset + 1 + len) ≡ false = ground arith in
    let stored =
      write_at_lem wptr (printed (dns_msg_size - wptr) text) w.dec.msg
        (omega (arith, printed_fits (dns_msg_size - wptr) text)) in
    let past : leb (wptr + length text) dns_msg_size ≡ false = ground arith in
    rw (going, byte, within, loud, read, chars, stored, past) refl
