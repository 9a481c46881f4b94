-- ===== src/Numbers/Decimal.antt =====
-- The loops of `itoa` and `u32toa` of src/util.c against the decimal digits of a number.
use c_dns_pkt.Prelude.{
  ℕ, zero, suc, ◌+◌, ◌*◌, ◌/◌, ◌^◌, ◌≤◌, ◌<◌, ◌≡◌, refl, false, [], ◌∷◌, length, fault, pos, ◌==◌,
  arith,
}
use native.Mathlib.Numerals.{unary_clauses}
use c_dns_pkt.Mem.{Bytes, write_at, splice}
use c_dns_pkt.Mem.Laws.{write_at_lem, length-splice}
use c_dns_pkt.Numbers.{
  digit_char, digit_loop, put_digits, itoa, u32toa, tostr_buf, int_tostr, u32_tostr,
}

pow_suc : (n : ℕ) → 10 ^ suc n ≡ 10 * 10 ^ n
pow_suc n = simp unary_clauses (omega arith)

pow_pos : (n : ℕ) → 0 < 10 ^ n
pow_pos zero = omega arith
pow_pos (suc n) = omega (arith, pow_suc n, pow_pos n)

-- The loop runs out of the front of its buffer on a number with more digits.
loop_fault :
    (fuel val : ℕ) (acc buf : Bytes) (str : ℕ)
    → 0 < val
    → 10 ^ str ≤ val
    → str < fuel
    → str + length acc + 1 ≤ length buf
    → digit_loop false fuel val buf str ≡ fault
unfolding digit_loop
loop_fault zero val acc buf str p h f room = absurd (omega arith)
loop_fault (suc fuel) val acc buf zero p h f room =
    let positive : (val == 0) ≡ false = ground arith in rw positive refl
loop_fault (suc fuel) val acc buf (suc s) p h f room =
    let positive : (val == 0) ≡ false = ground arith in
    let stored = write_at_lem s (digit_char false val ∷ []) buf (omega arith) in
    let q = pow_suc s in
    let rest =
      loop_fault fuel (val / 10) (digit_char false val ∷ acc)
        (splice s (digit_char false val ∷ []) buf) s (omega (arith, q, pow_pos s))
        (omega (arith, q)) (omega arith)
        (omega (arith, length-splice s (digit_char false val ∷ []) buf)) in
    rw (positive, stored, rest) refl

-- A number of 10 digits or more makes `int_tostr` store in front of its buffer.
pub int_tostr-fault : (val : ℕ) → 10 ^ 9 ≤ val → int_tostr (pos val) ≡ fault
unfolding int_tostr itoa put_digits write_at splice
int_tostr-fault zero h = absurd (omega arith)
int_tostr-fault (suc n) h =
    let run = loop_fault 10 (suc n) [] tostr_buf 9 (omega arith) h (omega arith) (omega arith) in
    let some_digits : (suc n == 0) ≡ false = ground arith in rw (some_digits, run) refl

-- `u32_tostr` stores in front of its buffer for every number, since it passes the size of one
-- character.
pub u32_tostr-fault : (val : ℕ) → u32_tostr val ≡ fault
unfolding u32_tostr u32toa put_digits digit_loop write_at splice
u32_tostr-fault zero = refl
u32_tostr-fault (suc n) =
    let some_digits : (suc n == 0) ≡ false = ground arith in rw some_digits refl
