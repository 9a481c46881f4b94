-- ===== src/Dns/Message/Store.antt =====
-- The names store: `msg_store_str` and `msg_store_name` of src/dns_proto.c.
use c_dns_pkt.Prelude.{
  ℕ, zero, suc, ◌+◌, ◌≤◌, ◌≡◌, ◌≢◌, refl, sym, ap, ◌∙◌, [], ◌∷◌, ◌++◌, length, All, drop, none,
  some, get_elem?, ltb, arith, Bool-cases, inl, inr, length-append, get_elem?-append_end,
}
use mathlib.Core.List.{append-nil, append_assoc}
use mathlib.Core.Path.{subst}
use c_dns_pkt.Mem.{Bytes}
use c_dns_pkt.Dns.{dns_name_maxstr, dns_max_pdusize}
use c_dns_pkt.Dns.Message.{Stored, msg_store_str, up_to_zero}

-- A pointer into the store is NULL, or has a zero byte of the store at it or behind it.
abbrev pub HasString : Bytes → Stored → Type 0
HasString names none = Unit {0}
HasString names (some i) = (k : ℕ) × (i ≤ k) × (get_elem? names k ≡ some 0)

get_elem?-append_left :
    (xs ys : Bytes) (i b : ℕ) → get_elem? xs i ≡ some b → get_elem? (xs ++ ys) i ≡ some b
get_elem?-append_left [] ys i b h = cc
get_elem?-append_left (x ∷ xs) ys zero b h = h
get_elem?-append_left (x ∷ xs) ys (suc i) b h = get_elem?-append_left xs ys i b h

pub HasString-append :
    (names more : Bytes) (p : Stored) → HasString names p → HasString (names ++ more) p
HasString-append names more none h = tt
HasString-append names more (some i) (k, le, z) = (k, le, get_elem?-append_left names more k 0 z)

-- From `names` to `names'` the store has only grown, within its size.
pub record Grows (names names' : Bytes) : Type 0 where
  pub more : Bytes
  pub grown : names' ≡ names ++ more
  pub bounded : length names ≤ dns_max_pdusize → length names' ≤ dns_max_pdusize

pub Grows-refl : (names : Bytes) → Grows names names
Grows-refl names = record { more = []; grown = sym (append-nil names); bounded = λ h. h }

pub Grows-trans : (x y z : Bytes) → Grows x y → Grows y z → Grows x z
Grows-trans x y z g h = record {
  more = g.more ++ h.more;
  grown = h.grown ∙ ap (λ (n : Bytes). n ++ h.more) g.grown ∙ append_assoc x g.more h.more;
  bounded = λ s. h.bounded (g.bounded s);
}

pub HasString-grow :
    (names names' : Bytes) (p : Stored)
    → Grows names names'
    → HasString names p
    → HasString names' p
HasString-grow names names' p g h =
    subst (λ n. HasString n p) (sym g.grown) (HasString-append names g.more p h)

stored-Grows :
    (names str : Bytes)
    → length names + length str + 1 ≤ dns_max_pdusize
    → Grows names (names ++ str ++ 0 ∷ [])
      × HasString (names ++ str ++ 0 ∷ []) (some (length names))
stored-Grows names str h =
    let size = length-append names str in
    let size' = length-append (names ++ str) (0 ∷ []) in
    (
      record {
        more = str ++ 0 ∷ [];
        grown = append_assoc names str (0 ∷ []);
        bounded = λ _. omega arith;
      },
      (length (names ++ str), omega arith, get_elem?-append_end (names ++ str) 0),
    )

-- A call keeps what is stored, stays within the store, and returns a string of it or NULL.
pub msg_store_str-Grows :
    (names str : Bytes)
    → Grows names (msg_store_str names str).0
      × HasString (msg_store_str names str).0 (msg_store_str names str).1
unfolding msg_store_str
msg_store_str-Grows names str = elim (Bool-cases (ltb dns_name_maxstr (length str))) [
  | inl e ↦ rw e (Grows-refl names, tt)
  | inr e ↦ elim (Bool-cases (ltb dns_max_pdusize (length names + length str + 1))) [
    | inl f ↦ rw (e, f) (Grows-refl names, tt)
    | inr f ↦ rw (e, f) (stored-Grows names str (ground arith))
  ]
]

-- A string of at most 253 characters that fits what is left of the store is stored.
pub msg_store_str_fits :
    (names str : Bytes)
    → length str ≤ dns_name_maxstr
    → length names + length str + 1 ≤ dns_max_pdusize
    → msg_store_str names str ≡ (names ++ str ++ 0 ∷ [], some (length names))
unfolding msg_store_str
msg_store_str_fits names str h k = ground arith

up_to_zero-append : (str more : Bytes) → All (λ c. c ≢ 0) str → up_to_zero (str ++ 0 ∷ more) ≡ str
up_to_zero-append [] more h = refl
up_to_zero-append (zero ∷ cs) more (h, t) = absurd (h refl)
up_to_zero-append (suc c ∷ cs) more (h, t) = ap (◌∷◌ (suc c)) (up_to_zero-append cs more t)

drop-append : (xs ys : Bytes) → drop (length xs) (xs ++ ys) ≡ ys
drop-append [] ys = refl
drop-append (x ∷ xs) ys = drop-append xs ys

-- The C string at an index.
abbrev pub c_str : Bytes → ℕ → Bytes
c_str names i = up_to_zero (drop i names)

up_to_zero_append :
    (xs more : Bytes) (k : ℕ) → get_elem? xs k ≡ some 0 → up_to_zero (xs ++ more) ≡ up_to_zero xs
up_to_zero_append [] more k h = cc
up_to_zero_append (zero ∷ xs) more k h = refl
up_to_zero_append (suc c ∷ xs) more zero h = absurd (ground arith)
up_to_zero_append (suc c ∷ xs) more (suc k) h = ap (◌∷◌ (suc c)) (up_to_zero_append xs more k h)

c_str_append :
    (names more : Bytes) (i k : ℕ)
    → i ≤ k
    → get_elem? names k ≡ some 0
    → c_str (names ++ more) i ≡ c_str names i
c_str_append [] more i k le z = cc
c_str_append (x ∷ xs) more zero k le z = up_to_zero_append (x ∷ xs) more k z
c_str_append (x ∷ xs) more (suc i) zero le z = absurd (omega arith)
c_str_append (x ∷ xs) more (suc i) (suc k) le z = c_str_append xs more i k (omega arith) z

-- Growth keeps every string.
pub c_str-Grows :
    (names names' : Bytes) (i : ℕ)
    → Grows names names'
    → HasString names (some i)
    → c_str names' i ≡ c_str names i
c_str-Grows names names' i g (k, le, z) = rw g.grown (c_str_append names g.more i k le z)

pub c_str_stored :
    (names str : Bytes) → All (λ c. c ≢ 0) str → c_str (names ++ str ++ 0 ∷ []) (length names) ≡ str
c_str_stored names str h = rw (append_assoc, drop-append) (up_to_zero-append str [] h)

pub c_str-msg_store_str :
    (names names' str : Bytes) (i : ℕ)
    → All (λ c. c ≢ 0) str
    → msg_store_str names str ≡ (names', some i)
    → c_str names' i ≡ str
unfolding msg_store_str
c_str-msg_store_str names names' str i h e = elim (Bool-cases (ltb dns_name_maxstr (length str))) [
  | inl a ↦ cc (rw a at e)
  | inr a ↦ elim (Bool-cases (ltb dns_max_pdusize (length names + length str + 1))) [
    | inl b ↦ cc (rw (a, b) at e)
    | inr b ↦ stored (rw (a, b) at e)
  ]
]
  where
    stored :
        ◌≡◌ {A = Bytes × Stored} (names ++ str ++ 0 ∷ [], some (length names)) (names', some i)
        → c_str names' i ≡ str
    stored q =
        let whole : names ++ str ++ 0 ∷ [] ≡ names' = cc in
        let place : length names ≡ i = cc in
        subst (λ n. c_str n i ≡ str) whole
          (subst (λ k. c_str (names ++ str ++ 0 ∷ []) k ≡ str) place (c_str_stored names str h))
