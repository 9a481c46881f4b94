-- ===== src/Dns/Encode/Space.antt =====
-- The space that the encoder of src/dns_proto.c takes and returns, and its stores.
use c_dns_pkt.Prelude.{ℕ, ◌+◌, ◌-◌, ◌^◌, ◌≤◌, ◌<◌, ◌≡◌, length, Option, some, ok, ℤ, pos, arith}
use c_dns_pkt.Mem.{splice}
use c_dns_pkt.Mem.Laws.{write_at_lem}
use c_dns_pkt.Words.{u16_bytes, u32_bytes, enc_u16, enc_u32}
use c_dns_pkt.Dns.Name.Encode.{Enc}
use c_dns_pkt.Dns.Encode.{dns_enc_mkspace, dns_enc_retspace, size_sub, put_u16, put_u32}

-- Space that the packet has is reserved behind what is used.
pub dns_enc_mkspace_lem :
    (enc : Enc) (len : ℕ)
    → enc.pkt_len + len ≤ enc.pkt_max
    → enc.pkt_max < 2 ^ 64
    → ◌≡◌ {A = Enc × Option ℕ}
        (dns_enc_mkspace enc len)
        (record enc { pkt_len = enc.pkt_len + len }, some enc.pkt_len)
unfolding dns_enc_mkspace
dns_enc_mkspace_lem enc len fits small = ground arith

-- What is not used of a reserved space goes back.
pub dns_enc_retspace_lem :
    (enc : Enc) (len used : ℕ)
    → used ≤ len
    → len ≤ enc.pkt_len
    → len < 2 ^ 64
    → ◌≡◌ {A = Enc × ℤ}
        (dns_enc_retspace enc (size_sub len used))
        (record enc { pkt_len = enc.pkt_len - (len - used) }, pos 0)
unfolding dns_enc_retspace
dns_enc_retspace_lem enc len used le fits small = ground arith

pub put_u16_lem :
    (enc : Enc) (wptr value : ℕ)
    → wptr + 2 ≤ length enc.pkt_buf
    → put_u16 enc wptr value
      ≡ ok (record enc { pkt_buf = splice wptr (u16_bytes value) enc.pkt_buf }, wptr + 2)
unfolding put_u16 enc_u16
put_u16_lem enc wptr value fits = rw (write_at_lem wptr (u16_bytes value) enc.pkt_buf fits)

pub put_u32_lem :
    (enc : Enc) (wptr value : ℕ)
    → wptr + 4 ≤ length enc.pkt_buf
    → put_u32 enc wptr value
      ≡ ok (record enc { pkt_buf = splice wptr (u32_bytes value) enc.pkt_buf }, wptr + 4)
unfolding put_u32 enc_u32
put_u32_lem enc wptr value fits = rw (write_at_lem wptr (u32_bytes value) enc.pkt_buf fits)
