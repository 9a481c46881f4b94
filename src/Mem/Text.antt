-- ===== src/Mem/Text.antt =====
-- C strings in a buffer that was written to.
use c_dns_pkt.Prelude.{
  ℕ, zero, suc, ap, ◌++◌, All, ◌≢◌, ◌+◌, ◌≤◌, ◌≡◌, refl, ◌∙◌, [], ◌∷◌, length, get_elem?, take,
  drop, some, ok, arith,
}
use c_dns_pkt.Mem.{Bytes, splice, until_zero, c_string, At}
use c_dns_pkt.Mem.Laws.{At-splice}

-- Memory with a zero byte has a string.
pub until_zero_total :
    (bs : Bytes) (k : ℕ) → get_elem? bs k ≡ some 0 → (s : Bytes) × (until_zero bs ≡ ok s)
unfolding until_zero
until_zero_total [] k h = cc
until_zero_total (zero ∷ bs) k h = ([], refl)
until_zero_total (suc c ∷ bs) zero h = absurd (ground arith)
until_zero_total (suc c ∷ bs) (suc k) h = let (s, e) = until_zero_total bs k h in (suc c ∷ s, rw e)

pub get_elem?-drop : (bs : Bytes) (i k : ℕ) → get_elem? (drop i bs) k ≡ get_elem? bs (i + k)
get_elem?-drop bs zero k = let e : 0 + k ≡ k = omega arith in rw e refl
get_elem?-drop [] (suc i) k = refl
get_elem?-drop (b ∷ bs) (suc i) k =
    let e : suc i + k ≡ suc (i + k) = omega arith in rw e (get_elem?-drop bs i k)

get_elem?-At :
    (buf : Bytes) (i : ℕ) (bs : Bytes) (k b : ℕ)
    → At buf i bs
    → get_elem? bs k ≡ some b
    → get_elem? buf (i + k) ≡ some b
get_elem?-At buf i [] k b h e = cc
get_elem?-At buf i (c ∷ bs) zero b (h, t) e = let same : i + 0 ≡ i = omega arith in rw same (h ∙ e)
get_elem?-At buf i (c ∷ bs) (suc k) b (h, t) e =
    let same : i + suc k ≡ i + 1 + k = omega arith in rw same (get_elem?-At buf (i + 1) bs k b t e)

-- Bytes with a zero among them, written at an index, hold a string there.
pub c_string-splice :
    (i : ℕ) (bs buf : Bytes) (k : ℕ)
    → i + length bs ≤ length buf
    → get_elem? bs k ≡ some 0
    → (s : Bytes) × (c_string i (splice i bs buf) ≡ ok s)
unfolding c_string
c_string-splice i bs buf k h z = until_zero_total (drop i (splice i bs buf)) k (
    get_elem?-drop (splice i bs buf) i k
    ∙ get_elem?-At (splice i bs buf) i bs k 0 (At-splice i bs buf h) z)

pub length-take : (n : ℕ) (bs : Bytes) → length (take n bs) ≤ n
length-take zero bs = omega arith
length-take (suc n) [] = omega arith
length-take (suc n) (b ∷ bs) = omega (arith, length-take n bs)

drop_cons : (buf : Bytes) (i b : ℕ) → get_elem? buf i ≡ some b → drop i buf ≡ b ∷ drop (i + 1) buf
drop_cons [] i b h = cc
drop_cons (x ∷ xs) zero b h = cc
drop_cons (x ∷ xs) (suc i) b h =
    let shifted : suc (i + 1) ≡ suc i + 1 = omega arith in
    drop_cons xs i b h ∙ ap (λ (k : ℕ). b ∷ drop k (x ∷ xs)) shifted

-- The string that stands in front of a zero byte.
pub c_string-At :
    (buf : Bytes) (i : ℕ) (text : Bytes)
    → All (λ c. c ≢ 0) text
    → At buf i (text ++ 0 ∷ [])
    → c_string i buf ≡ ok text
unfolding c_string until_zero
c_string-At buf i [] h (z, t) = rw (drop_cons buf i 0 z) refl
c_string-At buf i (zero ∷ text) (h, k) at = absurd (h refl)
c_string-At buf i (suc c ∷ text) (h, k) (z, t) =
    rw (drop_cons buf i (suc c) z, c_string-At buf (i + 1) text k t) refl
