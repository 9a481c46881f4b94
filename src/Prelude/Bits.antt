-- ===== src/Prelude/Bits.antt =====
-- Laws of the bit operations on bytes and words: tables for bytes, and the sum of disjoint words.
use Prim.Native.Nat.{
  ℕ, zero, suc, ◌+◌, ◌*◌, ◌/◌, ◌%◌, ◌^◌, ◌≤◌, ◌<◌, max, min, bit_and, bit_and-bitwise, bit_or,
  digits, bit_or-bitwise,
}
use mathlib.Core.Path.{◌≡◌, refl, ap, ◌∙◌}
use mathlib.Core.Bool.{Bool, true, false, not}
use native.Mathlib.Omega.{arith}
use native.Mathlib.Nat.{pow-suc}
use c_dns_pkt.Prelude.Tests.{leb, ◌==◌, ==_iff, if◌then◌else◌, Bool-cases}
use mathlib.Core.Logic.{inl, inr}

-- With the low `k` digits of `x` zero, and no others in `b`, each step of the recursion on digits
-- keeps the sum.
merged : (n k c x b : ℕ) → x ≡ c * 2 ^ k → x ≤ n → b < 2 ^ k → digits (λ y. y) max n x b ≡ x + b
merged zero k c zero b e le lt = omega arith
merged zero k c (suc x) b e le lt = absurd (omega arith)
merged (suc n) k c zero b e le lt = omega arith
merged (suc n) zero c (suc x) b e le lt =
    let rest =
      merged n 0 (suc x / 2) (suc x / 2) (b / 2) (omega arith) (omega arith) (omega arith) in
    omega (arith, rest)
merged (suc n) (suc k) c (suc x) b e le lt =
    let twice : 2 ^ suc k ≡ 2 ^ k * 2 = pow-suc 2 k in
    let whole : suc x ≡ c * 2 ^ k * 2 = e ∙ (omega (arith, ap (λ (y : ℕ). c * y) twice)) in
    let rest = merged n k c (suc x / 2) (b / 2) (omega arith) (omega arith) (omega arith) in
    omega (arith, rest)

-- Where the low digits of one number are zero and the other has no others, `|` is `+`.
pub or_disjoint : (k a b : ℕ) → b < 2 ^ k → bit_or (a * 2 ^ k) b ≡ a * 2 ^ k + b
or_disjoint k a b h =
    bit_or-bitwise (a * 2 ^ k) b ∙ merged (a * 2 ^ k) k a (a * 2 ^ k) b refl (omega arith) h

-- With the low `k` digits of `b` one, each step keeps a number that has no others.
masked : (n k x b : ℕ) → b + 1 ≡ 2 ^ k → x ≤ n → x < 2 ^ k → digits (λ y. 0) min n x b ≡ x
masked zero k zero b e le lt = refl
masked zero k (suc x) b e le lt = absurd (omega arith)
masked (suc n) k zero b e le lt = refl
masked (suc n) zero (suc x) b e le lt = absurd (omega arith)
masked (suc n) (suc k) (suc x) b e le lt =
    let twice : 2 ^ suc k ≡ 2 ^ k * 2 = pow-suc 2 k in
    omega (arith, masked n k (suc x / 2) (b / 2) (omega arith) (omega arith) (omega arith))

-- A mask of `k` ones keeps a number of `k` digits.
pub bit_and-ones : (k a b : ℕ) → b + 1 ≡ 2 ^ k → a < 2 ^ k → bit_and a b ≡ a
bit_and-ones k a b e lt = bit_and-bitwise a b ∙ masked a k a b e (omega arith) lt

-- A test that holds at every byte, found by running it.
abbrev every_byte : ℕ → (ℕ → Bool) → Bool
every_byte zero test = true
every_byte (suc n) test = if test n then every_byte n test else false

byte_table : (n : ℕ) (test : ℕ → Bool) → every_byte n test ≡ true → (b : ℕ) → b < n → test b ≡ true
byte_table zero test h b lt = absurd (omega arith)
byte_table (suc n) test h b lt = elim (Bool-cases (test n)) [
  | inl t ↦ elim (Bool-cases (b == n)) [
    | inl here ↦ rw ((==_iff b n).0 here) t
    | inr lower ↦ byte_table n test (ground arith) b (ground arith)
  ]
  | inr f ↦ absurd (ground arith)
]

abbrev same : Bool → Bool → Bool
same true b = b
same false b = not b

agree : (a b : Bool) → same a b ≡ true → a ≡ b
agree true true h = refl
agree true false h = cc
agree false true h = cc
agree false false h = refl

-- The two marks of a compression pointer in the byte that begins it.
pub is_pointer_mark : (b : ℕ) → b < 256 → (bit_and b 0xC0 == 0xC0) ≡ leb 192 b
is_pointer_mark b h =
    agree (bit_and b 0xC0 == 0xC0) (leb 192 b)
      (byte_table 256 (λ x. same (bit_and x 0xC0 == 0xC0) (leb 192 x)) refl b h)

pub pointer_high : (b : ℕ) → b < 256 → bit_and b 0x3F ≡ b % 64
pointer_high b h = (==_iff _ _).0 (byte_table 256 (λ x. bit_and x 0x3F == x % 64) refl b h)
