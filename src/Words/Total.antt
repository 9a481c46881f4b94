-- ===== src/Words/Total.antt =====
-- Reads of words inside of a buffer: `dec_u16` and `dec_u32` of src/str_util.h.
use c_dns_pkt.Prelude.{ℕ, ◌+◌, ◌*◌, ◌^◌, bit_or, ◌≤◌, ◌≡◌, refl, length, ok, get_elem?-lt, arith}
use c_dns_pkt.Mem.{Bytes}
use c_dns_pkt.Words.{dec_u16, dec_u32}

pub dec_u16_total :
    (buf : Bytes) (i : ℕ) → i + 2 ≤ length buf → (val : ℕ) × (dec_u16 buf i ≡ ok val)
unfolding dec_u16
dec_u16_total buf i h =
    let (a, ea) = get_elem?-lt buf i (omega arith) in
    let (b, eb) = get_elem?-lt buf (i + 1) (omega arith) in (bit_or (a * 2 ^ 8) b, rw (ea, eb) refl)

pub dec_u32_total :
    (buf : Bytes) (i : ℕ) → i + 4 ≤ length buf → (val : ℕ) × (dec_u32 buf i ≡ ok val)
unfolding dec_u32
dec_u32_total buf i h =
    let (a, ea) = get_elem?-lt buf i (omega arith) in
    let (b, eb) = get_elem?-lt buf (i + 1) (omega arith) in
    let (c, ec) = get_elem?-lt buf (i + 2) (omega arith) in
    let (d, ed) = get_elem?-lt buf (i + 3) (omega arith) in
    (bit_or (bit_or (bit_or (a * 2 ^ 24) (b * 2 ^ 16)) (c * 2 ^ 8)) d, rw (ea, eb, ec, ed) refl)
