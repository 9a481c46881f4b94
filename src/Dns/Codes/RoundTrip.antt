-- ===== src/Dns/Codes/RoundTrip.antt =====
-- The names of types and classes of src/dns_proto.c in both directions.
use c_dns_pkt.Prelude.{
  ℕ, ◌≡◌, refl, Bool, true, false, ◌&&◌, ◌||◌, List, [], ◌∷◌, some, ◌==◌, if◌then◌else◌, ==_iff,
  Bool-cases, inl, inr, arith,
}
use mathlib.Core.Path.{subst}
use c_dns_pkt.Mem.{Bytes}
use c_dns_pkt.Dns.Name.Encode.{lower, same_text}
use c_dns_pkt.Dns.Codes.{
  find_code, find_name, type_names, type_codes, class_codes, flag_codes, dns_type_tostr,
  dns_get_type, dns_get_class, dns_get_flag,
}

abbrev every : List (ℕ × Bytes) → (ℕ → Bytes → Bool) → Bool
every [] test = true
every ((k, name) ∷ rest) test = if test k name then every rest test else false

-- What holds of every entry of a table holds of the entry that is found.
find_code-every :
    (table : List (ℕ × Bytes)) (test : ℕ → Bytes → Bool) (code : ℕ) (name : Bytes)
    → every table test ≡ true
    → find_code table code ≡ some name
    → test code name ≡ true
unfolding find_code
find_code-every [] test code name h e = cc
find_code-every ((k, s) ∷ rest) test code name h e = elim (Bool-cases (test k s)) [
  | inr f ↦ absurd (ground arith)
  | inl t ↦ elim (Bool-cases (code == k)) [
    | inl here ↦
        let same : code ≡ k = (==_iff code k).0 here in
        let found : s ≡ name = cc (rw here at e) in rw same (subst (λ n. test k n ≡ true) found t)
    | inr other ↦ find_code-every rest test code name (rw t at h) (rw other at e)
  ]
]

-- The types that are printed and not read.
abbrev pub print_only : ℕ → Bool
print_only code = code == 41 || code == 252 || code == 255

abbrev type_entry : ℕ → Bytes → Bool
type_entry code name = dns_get_type name == (if print_only code then 0 else code)

-- The name that `dns_type_tostr` gives a type is read back as that type by `dns_get_type`, but for
-- OPT, AXFR and ANY, whose names give 0.
pub dns_get_type-dns_type_tostr :
    (code : ℕ) (name : Bytes)
    → dns_type_tostr code ≡ some name
    → dns_get_type name ≡ (if print_only code then 0 else code)
unfolding dns_type_tostr dns_get_type find_name same_text
dns_get_type-dns_type_tostr code name e =
    (==_iff _ _).0 (find_code-every type_names type_entry code name refl e)

and_true : (a b : Bool) → (a && b) ≡ true → (a ≡ true) × (b ≡ true)
and_true a b h = ground arith

-- Texts that are the same but for letter case match the same names.
same_text-left : (s t u : Bytes) → same_text s t ≡ true → same_text s u ≡ same_text t u
unfolding same_text
same_text-left [] [] u h = refl
same_text-left [] (y ∷ ys) u h = cc
same_text-left (x ∷ xs) [] u h = cc
same_text-left (x ∷ xs) (y ∷ ys) [] h = refl
same_text-left (x ∷ xs) (y ∷ ys) (z ∷ zs) h =
    let (here, rest) = and_true (lower x == lower y) (same_text xs ys) h in
    let same : lower x ≡ lower y = (==_iff _ _).0 here in
    rw (same, same_text-left xs ys zs rest) refl

find_name-same_text :
    (table : List (Bytes × ℕ)) (s t : Bytes)
    → same_text s t ≡ true
    → find_name table s ≡ find_name table t
unfolding find_name
find_name-same_text [] s t h = refl
find_name-same_text ((name, k) ∷ rest) s t h =
    rw (same_text-left s t name h, find_name-same_text rest s t h) refl

-- Letter case does not matter to what is read: texts that are the same but for it are the same type,
-- the same class and the same flag.
pub codes-same_text :
    (s t : Bytes)
    → same_text s t ≡ true
    → (dns_get_type s ≡ dns_get_type t)
      × (dns_get_class s ≡ dns_get_class t)
      × (dns_get_flag s ≡ dns_get_flag t)
unfolding dns_get_type dns_get_class dns_get_flag
codes-same_text s t h = (
  find_name-same_text type_codes s t h,
  find_name-same_text class_codes s t h,
  find_name-same_text flag_codes s t h,
)
