-- ===== src/Tests/Words.antt =====
-- The encoders of words and of the header on concrete buffers.
use c_dns_pkt.Prelude.{◌+◌, ◌≡◌, refl, [], ◌∷◌, ok, arith}
use c_dns_pkt.Mem.{Bytes, write_at, splice}
use c_dns_pkt.Words.{enc_u16, dec_u16, enc_u32, dec_u32}
use c_dns_pkt.Words.RoundTrip.{dec_u16-enc_u16, dec_u32-enc_u32}
use c_dns_pkt.Dns.Header.{Header, put_hdr, dns_hdr_decode}
use c_dns_pkt.Dns.Header.RoundTrip.{dns_hdr_decode-put_hdr}

abbrev four : Bytes
four = 9 ∷ 9 ∷ 9 ∷ 9 ∷ []

abbrev twelve : Bytes
twelve = 1 ∷ 2 ∷ 3 ∷ 4 ∷ 5 ∷ 6 ∷ 7 ∷ 8 ∷ 9 ∷ 10 ∷ 11 ∷ 12 ∷ []

abbrev zero_hdr : Header
zero_hdr = record { id = 0; flags = 0; qd_count = 0; an_count = 0; ns_count = 0; ar_count = 0 }

abbrev query_hdr : Header
query_hdr = record {
  id = 0x1234;
  flags = 0x0100;
  qd_count = 1;
  an_count = 0;
  ns_count = 0;
  ar_count = 2;
}

enc_u16_bytes : enc_u16 four 1 0x1234 ≡ ok (9 ∷ 0x12 ∷ 0x34 ∷ 9 ∷ [], 3)
unfolding enc_u16 write_at splice
enc_u16_bytes = refl

dec_u32_bytes : dec_u32 (0x0a ∷ 0x0d ∷ 0x0d ∷ 0x0a ∷ []) 0 ≡ ok 0x0a0d0d0a
unfolding dec_u32
dec_u32_bytes = refl

dec_u16-enc_u16_example :
    (buf' : Bytes) × (enc_u16 four 1 0x1234 ≡ ok (buf', 1 + 2)) × (dec_u16 buf' 1 ≡ ok 0x1234)
dec_u16-enc_u16_example = dec_u16-enc_u16 four 1 0x1234 (omega arith) (omega arith)

dec_u32-enc_u32_example :
    (buf' : Bytes) × (enc_u32 four 0 0xdeadbeef ≡ ok (buf', 0 + 4))
    × (dec_u32 buf' 0 ≡ ok 0xdeadbeef)
dec_u32-enc_u32_example = dec_u32-enc_u32 four 0 0xdeadbeef (omega arith) (omega arith)

dns_hdr_decode-put_hdr_example :
    (buf' : Bytes) × (put_hdr query_hdr twelve 0 ≡ ok (buf', 12))
    × (dns_hdr_decode zero_hdr buf' ≡ ok (query_hdr, 0))
dns_hdr_decode-put_hdr_example =
    dns_hdr_decode-put_hdr zero_hdr query_hdr twelve (omega arith) (omega arith)
