-- ===== src/Mem/Laws.antt =====
-- What a write to a buffer leaves where it was, and what a read after it sees.
use c_dns_pkt.Prelude.{
  ℕ, zero, suc, ◌+◌, ◌≤◌, ◌<◌, ◌≡◌, refl, ap, ◌∙◌, ◌⊎◌, inl, inr, [], ◌∷◌, ◌++◌, length, get_elem?,
  set, take, drop, some, ok, arith, length-set, get_elem?-set_self, get_elem?-set_ne,
}
use mathlib.Core.Path.{subst}
use c_dns_pkt.Mem.{Bytes, splice, write_at, read_at, At}

pub length-splice : (i : ℕ) (bs buf : Bytes) → length (splice i bs buf) ≡ length buf
unfolding splice
length-splice i [] buf = refl
length-splice i (b ∷ bs) buf = length-splice (i + 1) bs (set buf i b) ∙ length-set buf i b

pub get_elem?-splice_before :
    (i : ℕ) (bs buf : Bytes) (j : ℕ) → j < i → get_elem? (splice i bs buf) j ≡ get_elem? buf j
unfolding splice
get_elem?-splice_before i [] buf j h = refl
get_elem?-splice_before i (b ∷ bs) buf j h =
    get_elem?-splice_before (i + 1) bs (set buf i b) j (omega arith)
    ∙ get_elem?-set_ne buf i j b (omega arith)

pub get_elem?-splice_after :
    (i : ℕ) (bs buf : Bytes) (j : ℕ)
    → i + length bs ≤ j
    → get_elem? (splice i bs buf) j ≡ get_elem? buf j
unfolding splice
get_elem?-splice_after i [] buf j h = refl
get_elem?-splice_after i (b ∷ bs) buf j h =
    get_elem?-splice_after (i + 1) bs (set buf i b) j (omega arith)
    ∙ get_elem?-set_ne buf i j b (omega arith)

-- Two buffers agree from index `i` on for `n` bytes.
pub At-transfer :
    (buf buf' : Bytes) (i : ℕ) (bs : Bytes)
    → ((j : ℕ) → i ≤ j → j < i + length bs → get_elem? buf' j ≡ get_elem? buf j)
    → At buf i bs
    → At buf' i bs
At-transfer buf buf' i [] same h = tt
At-transfer buf buf' i (b ∷ bs) same (h, t) = (
  same i (omega arith) (omega arith) ∙ h,
  At-transfer buf buf' (i + 1) bs (λ j p q. same j (omega arith) (omega arith)) t,
)

pub At-splice : (i : ℕ) (bs buf : Bytes) → i + length bs ≤ length buf → At (splice i bs buf) i bs
unfolding splice
At-splice i [] buf h = tt
At-splice i (b ∷ bs) buf h = (
  get_elem?-splice_before (i + 1) bs (set buf i b) i (omega arith)
      ∙ get_elem?-set_self buf i b (omega arith),
  At-splice (i + 1) bs (set buf i b) (omega (arith, length-set buf i b)),
)

-- A write elsewhere keeps what stands at `k`.
pub At-splice_other :
    (i : ℕ) (bs buf : Bytes) (k : ℕ) (ks : Bytes)
    → (k + length ks ≤ i) ⊎ (i + length bs ≤ k)
    → At buf k ks
    → At (splice i bs buf) k ks
At-splice_other i bs buf k ks (inl h) =
    At-transfer buf _ k ks (λ j p q. get_elem?-splice_before i bs buf j (omega arith))
At-splice_other i bs buf k ks (inr h) =
    At-transfer buf _ k ks (λ j p q. get_elem?-splice_after i bs buf j (omega arith))

pub At-append :
    (buf : Bytes) (i : ℕ) (xs bs : Bytes)
    → At buf i xs
    → At buf (i + length xs) bs
    → At buf i (xs ++ bs)
At-append buf i [] bs h k = subst (λ n. At buf n bs) (omega arith) k
At-append buf i (x ∷ xs) bs (h, t) k =
    (h, At-append buf (i + 1) xs bs t (subst (λ n. At buf n bs) (omega arith) k))

pub write_at_lem :
    (i : ℕ) (bs buf : Bytes) → i + length bs ≤ length buf → write_at i bs buf ≡ ok (splice i bs buf)
unfolding write_at
write_at_lem i bs buf h = ground arith

take-drop-cons :
    (buf : Bytes) (i b n : ℕ)
    → get_elem? buf i ≡ some b
    → take (suc n) (drop i buf) ≡ b ∷ take n (drop (i + 1) buf)
take-drop-cons [] i b n h = cc
take-drop-cons (x ∷ xs) zero b n h = cc
take-drop-cons (x ∷ xs) (suc i) b n h =
    let shifted : suc (i + 1) ≡ suc i + 1 = omega arith in
    take-drop-cons xs i b n h ∙ ap (λ (k : ℕ). b ∷ take n (drop k (x ∷ xs))) shifted

pub take-drop-At :
    (buf : Bytes) (i : ℕ) (bs : Bytes) → At buf i bs → take (length bs) (drop i buf) ≡ bs
take-drop-At buf i [] h = refl
take-drop-At buf i (b ∷ bs) (h, t) =
    take-drop-cons buf i b (length bs) h ∙ ap (◌∷◌ b) (take-drop-At buf (i + 1) bs t)

-- Reading back what stands there.
pub read_at-At :
    (buf : Bytes) (i : ℕ) (bs : Bytes)
    → i + length bs ≤ length buf
    → At buf i bs
    → read_at i (length bs) buf ≡ ok bs
unfolding read_at
read_at-At buf i bs h a = ground (arith, take-drop-At buf i bs a)

length-take-drop : (i n : ℕ) (buf : Bytes) → i + n ≤ length buf → length (take n (drop i buf)) ≡ n
length-take-drop zero zero buf h = refl
length-take-drop zero (suc n) [] h = absurd (omega arith)
length-take-drop zero (suc n) (b ∷ bs) h = ap suc (length-take-drop zero n bs (omega arith))
length-take-drop (suc i) zero [] h = absurd (omega arith)
length-take-drop (suc i) (suc n) [] h = absurd (omega arith)
length-take-drop (suc i) n (b ∷ bs) h = length-take-drop i n bs (omega arith)

-- A read inside of the buffer gives as many bytes as were asked for.
pub length-read_at :
    (i n : ℕ) (buf : Bytes)
    → i + n ≤ length buf
    → (bs : Bytes) × (read_at i n buf ≡ ok bs) × (length bs ≡ n)
unfolding read_at
length-read_at i n buf h = (take n (drop i buf), ground arith, length-take-drop i n buf h)
