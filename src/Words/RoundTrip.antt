-- ===== src/Words/RoundTrip.antt =====
-- The encoders of words of src/str_util.h against the decoders.
use c_dns_pkt.Prelude.{
  ℕ, ◌+◌, ◌*◌, ◌/◌, ◌%◌, ◌^◌, ◌≤◌, ◌<◌, ◌≡◌, refl, ◌∙◌, ap, [], ◌∷◌, bit_or, ok, length, arith,
}
use c_dns_pkt.Prelude.Bits.{or_disjoint}
use c_dns_pkt.Mem.{Bytes, At, splice}
use c_dns_pkt.Mem.Laws.{write_at_lem, At-splice}
use c_dns_pkt.Words.{u16_bytes, u32_bytes, enc_u16, enc_u32, dec_u16, dec_u32}

or_u16 : (a b : ℕ) → b < 256 → bit_or (a * 2 ^ 8) b ≡ a * 256 + b
or_u16 a b h = or_disjoint 8 a b h

or_sum : (k x a b : ℕ) → x ≡ a * 2 ^ k → b < 2 ^ k → bit_or x b ≡ x + b
or_sum k x a b e h = rw e (or_disjoint k a b h)

or_u32 :
    (a b c d : ℕ)
    → b < 256
    → c < 256
    → d < 256
    → bit_or (bit_or (bit_or (a * 2 ^ 24) (b * 2 ^ 16)) (c * 2 ^ 8)) d
      ≡ a * 2 ^ 24 + b * 2 ^ 16 + c * 2 ^ 8 + d
or_u32 a b c d hb hc hd = rw (or_sum 24 (a * 2 ^ 24) a (b * 2 ^ 16) refl (omega arith)) (
    rw (or_sum 16 (a * 2 ^ 24 + b * 2 ^ 16) (a * 2 ^ 8 + b) (c * 2 ^ 8) (omega arith) (omega arith))
      (or_sum 8 (a * 2 ^ 24 + b * 2 ^ 16 + c * 2 ^ 8) (a * 2 ^ 16 + b * 2 ^ 8 + c) d (omega arith)
        hd))

-- Where two bytes stand in the buffer, `dec_u16` returns the number that they write in base 256.
pub dec_u16-At :
    (buf : Bytes) (i a b : ℕ) → b < 256 → At buf i (a ∷ b ∷ []) → dec_u16 buf i ≡ ok (a * 256 + b)
unfolding dec_u16
dec_u16-At buf i a b hb h = ground (arith, or_u16 a b)

pub dec_u16-u16_bytes :
    (buf : Bytes) (i v : ℕ) → v < 2 ^ 16 → At buf i (u16_bytes v) → dec_u16 buf i ≡ ok v
dec_u16-u16_bytes buf i v h a =
    dec_u16-At buf i (v / 2 ^ 8 % 256) (v % 256) (omega arith) a ∙ ap ok (omega arith)

pub dec_u32-u32_bytes :
    (buf : Bytes) (i v : ℕ) → v < 2 ^ 32 → At buf i (u32_bytes v) → dec_u32 buf i ≡ ok v
unfolding dec_u32
dec_u32-u32_bytes buf i v h a =
    ground (arith, or_u32 (v / 2 ^ 24 % 256) (v / 2 ^ 16 % 256) (v / 2 ^ 8 % 256) (v % 256))

-- A 16-bit value that is written at any place of a buffer where two bytes fit is read back there.
pub dec_u16-enc_u16 :
    (buf : Bytes) (wptr v : ℕ)
    → v < 2 ^ 16
    → wptr + 2 ≤ length buf
    → (buf' : Bytes) × (enc_u16 buf wptr v ≡ ok (buf', wptr + 2)) × (dec_u16 buf' wptr ≡ ok v)
unfolding enc_u16
dec_u16-enc_u16 buf wptr v h fits = (
  splice wptr (u16_bytes v) buf,
  rw (write_at_lem wptr (u16_bytes v) buf fits),
  dec_u16-u16_bytes _ wptr v h (At-splice wptr (u16_bytes v) buf fits),
)

-- A 32-bit value that is written at any place of a buffer where four bytes fit is read back there.
pub dec_u32-enc_u32 :
    (buf : Bytes) (wptr v : ℕ)
    → v < 2 ^ 32
    → wptr + 4 ≤ length buf
    → (buf' : Bytes) × (enc_u32 buf wptr v ≡ ok (buf', wptr + 4)) × (dec_u32 buf' wptr ≡ ok v)
unfolding enc_u32
dec_u32-enc_u32 buf wptr v h fits = (
  splice wptr (u32_bytes v) buf,
  rw (write_at_lem wptr (u32_bytes v) buf fits),
  dec_u32-u32_bytes _ wptr v h (At-splice wptr (u32_bytes v) buf fits),
)
