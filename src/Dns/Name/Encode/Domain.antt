-- ===== src/Dns/Name/Encode/Domain.antt =====
-- The names that `encode_name` is meant for, and names that are the same but for letter case.
use c_dns_pkt.Prelude.{
  ℕ, suc, ◌≤◌, ◌≡◌, ◌≢◌, refl, ap, ◌∙◌, Bool, true, false, ◌&&◌, [], ◌∷◌, ◌++◌, length, All, Option,
  none, some, ◌==◌, arith, ==_iff,
}
use c_dns_pkt.Mem.{Bytes}
use c_dns_pkt.Dns.Name.Wire.{NameAt, root, label, pointer}
use c_dns_pkt.Dns.Name.Encode.{lower, same_text, split_dot}

-- A label: 1 to 63 characters, none of them a dot.
pub record IsLabel (bytes : Bytes) : Type 0 where
  pub ne_nil : bytes ≢ []
  pub short : length bytes ≤ 63
  pub no_dot : All (λ c. c ≢ b'.') bytes

-- A domain name as text: labels with dots between them. The root is the empty text.
pub data IsDomain : Bytes → Type 0 where
  empty : {name : Bytes} → name ≡ [] → IsDomain name
  last : {name : Bytes} → IsLabel name → IsDomain name
  dotted :
      {name rest : Bytes} (bytes : Bytes)
      → IsLabel bytes
      → IsDomain rest
      → rest ≢ []
      → name ≡ bytes ++ b'.' ∷ rest
      → IsDomain name

pub split_dot_last : (bytes : Bytes) → All (λ c. c ≢ b'.') bytes → split_dot bytes ≡ (bytes, none)
unfolding split_dot
split_dot_last [] h = refl
split_dot_last (c ∷ cs) (h, t) =
    let other : (c == b'.') ≡ false = ground arith in rw (other, split_dot_last cs t)

pub split_dot_dotted :
    (bytes rest : Bytes)
    → All (λ c. c ≢ b'.') bytes
    → split_dot (bytes ++ b'.' ∷ rest) ≡ (bytes, some rest)
unfolding split_dot
split_dot_dotted [] rest h = refl
split_dot_dotted (c ∷ cs) rest (h, t) =
    let other : (c == b'.') ≡ false = ground arith in rw (other, split_dot_dotted cs rest t)

eq_self : (a : ℕ) → (a == a) ≡ true
eq_self a = ground arith

pub same_text_refl : (xs : Bytes) → same_text xs xs ≡ true
unfolding same_text
same_text_refl [] = refl
same_text_refl (x ∷ xs) = rw (eq_self (lower x)) (same_text_refl xs)

pub same_text-append :
    (xs ys zs : Bytes) → same_text ys zs ≡ true → same_text (xs ++ ys) (xs ++ zs) ≡ true
unfolding same_text
same_text-append [] ys zs h = h
same_text-append (x ∷ xs) ys zs h = rw (eq_self (lower x)) (same_text-append xs ys zs h)

and_parts : (a b : Bool) → (a && b) ≡ true → (a ≡ true) × (b ≡ true)
and_parts a b h = ground arith

pub same_text_trans :
    (xs ys zs : Bytes) → same_text xs ys ≡ true → same_text ys zs ≡ true → same_text xs zs ≡ true
unfolding same_text
same_text_trans [] [] zs h k = k
same_text_trans [] (y ∷ ys) zs h k = cc
same_text_trans (x ∷ xs) [] zs h k = cc
same_text_trans (x ∷ xs) (y ∷ ys) [] h k = cc
same_text_trans (x ∷ xs) (y ∷ ys) (z ∷ zs) h k =
    let (h0, h1) = and_parts (lower x == lower y) (same_text xs ys) h in
    let (k0, k1) = and_parts (lower y == lower z) (same_text ys zs) k in
    let e : lower x ≡ lower z = (==_iff _ _).0 h0 ∙ (==_iff _ _).0 k0 in
    rw (e, eq_self (lower z)) (same_text_trans xs ys zs h1 k1)

pub same_text-length : (xs ys : Bytes) → same_text xs ys ≡ true → length xs ≡ length ys
unfolding same_text
same_text-length [] [] h = refl
same_text-length [] (y ∷ ys) h = cc
same_text-length (x ∷ xs) [] h = cc
same_text-length (x ∷ xs) (y ∷ ys) h =
    ap suc (same_text-length xs ys (and_parts (lower x == lower y) (same_text xs ys) h).1)

-- A name that is not the root does not begin with a zero byte, and the root has no text.
pub NameAt-first :
    {read : ℕ → Option ℕ} {p after jumps next : ℕ} {text : Bytes}
    → NameAt read p after jumps text
    → read p ≡ some next
    → text ≢ []
    → next ≢ 0
NameAt-first (root h _) e ne = absurd (ne refl)
NameAt-first (label _ h l _ _ _ _ _ _ _) e ne = λ z. ground arith
NameAt-first (pointer h l _ _ _ _ _) e ne = λ z. ground arith
