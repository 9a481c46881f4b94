-- ===== src/Slice/Number.antt =====
-- What number `str_tou32` of src/str_util.h reads.
use c_dns_pkt.Prelude.{
  ℕ, ◌+◌, ◌-◌, ◌*◌, ◌%◌, ◌^◌, ◌<◌, ◌≡◌, refl, true, false, List, [], ◌∷◌, ◌++◌, All, arith,
}
use c_dns_pkt.Mem.{Bytes}
use c_dns_pkt.Slice.{is_numeral, tou32_loop, str_tou32}

-- The number that digits write in base 10, behind the digits of `val`.
abbrev pub number_of : ℕ → List ℕ → ℕ
number_of val [] = val
number_of val (d ∷ ds) = number_of (val * 10 + d) ds

abbrev pub numerals : List ℕ → Bytes
numerals [] = []
numerals (d ∷ ds) = (b'0' + d) ∷ numerals ds

-- The text is empty or does not begin with a numeral.
abbrev pub NoNumeral : Bytes → Type 0
NoNumeral [] = Unit {0}
NoNumeral (c ∷ cs) = is_numeral c ≡ false

next_val :
    (val d : ℕ) → (val % 2 ^ 32 * 2 ^ 3 + val % 2 ^ 32 * 2 + d) % 2 ^ 32 ≡ (val * 10 + d) % 2 ^ 32
next_val val d = omega arith

tou32_loop-number_of :
    (val : ℕ) (ds : List ℕ) (rest : Bytes)
    → All (λ d. d < 10) ds
    → NoNumeral rest
    → tou32_loop (val % 2 ^ 32) (numerals ds ++ rest) ≡ number_of val ds % 2 ^ 32
unfolding tou32_loop
tou32_loop-number_of val [] [] a n = refl
tou32_loop-number_of val [] (c ∷ cs) a n = rw n refl
tou32_loop-number_of val (d ∷ ds) rest (lt, a) n =
    let digit : is_numeral (b'0' + d) ≡ true = ground arith in
    let value : b'0' + d - b'0' ≡ d = omega arith in
    rw (digit, value, next_val val d) (tou32_loop-number_of (val * 10 + d) ds rest a n)

-- `str_tou32` of decimal digits, followed by nothing or by something that is no digit, is the number
-- that they write, modulo 2^32.
pub str_tou32-number_of :
    (ds : List ℕ) (rest : Bytes)
    → All (λ d. d < 10) ds
    → NoNumeral rest
    → str_tou32 (numerals ds ++ rest) ≡ number_of 0 ds % 2 ^ 32
unfolding str_tou32
str_tou32-number_of ds rest a n = tou32_loop-number_of 0 ds rest a n
