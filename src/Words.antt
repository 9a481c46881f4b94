-- ===== src/Words.antt =====
-- src/str_util.h, the encoders and decoders of 16 and 32 bits in network order.
pub mod RoundTrip
pub mod Total
use c_dns_pkt.Prelude.{ℕ, ◌+◌, ◌*◌, ◌/◌, ◌%◌, ◌^◌, [], ◌∷◌, bit_or, Exec, ok, ◌>>=◌}
use c_dns_pkt.Mem.{Bytes, write_at, byte_at}

-- What `*wptr++ = value >> k` stores: each value is cut to a byte.
abbrev pub u16_bytes : ℕ → Bytes
u16_bytes value = (value / 2 ^ 8 % 256) ∷ (value % 256) ∷ []

abbrev pub u32_bytes : ℕ → Bytes
u32_bytes value =
    (value / 2 ^ 24 % 256) ∷ (value / 2 ^ 16 % 256) ∷ (value / 2 ^ 8 % 256) ∷ (value % 256) ∷ []

-- The buffer after the write, and `wptr` behind it.
unfoldable pub enc_u16 : Bytes → ℕ → ℕ → Exec (Bytes × ℕ)
enc_u16 buf wptr value = do buf' ← write_at wptr (u16_bytes value) buf; ok (buf', wptr + 2)

unfoldable pub enc_u32 : Bytes → ℕ → ℕ → Exec (Bytes × ℕ)
enc_u32 buf wptr value = do buf' ← write_at wptr (u32_bytes value) buf; ok (buf', wptr + 4)

unfoldable pub dec_u16 : Bytes → ℕ → Exec ℕ
dec_u16 buf i = do b0 ← byte_at buf i; b1 ← byte_at buf (i + 1); ok (bit_or (b0 * 2 ^ 8) b1)

unfoldable pub dec_u32 : Bytes → ℕ → Exec ℕ
dec_u32 buf i = do
  b0 ← byte_at buf i
  b1 ← byte_at buf (i + 1)
  b2 ← byte_at buf (i + 2)
  b3 ← byte_at buf (i + 3)
  ok (bit_or (bit_or (bit_or (b0 * 2 ^ 24) (b1 * 2 ^ 16)) (b2 * 2 ^ 8)) b3)
