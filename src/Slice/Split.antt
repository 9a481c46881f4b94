-- ===== src/Slice/Split.antt =====
-- What the calls of src/str_util.h that split a slice return.
use c_dns_pkt.Prelude.{
  ℕ, ◌≡◌, ◌≢◌, refl, ap, ◌∙◌, inl, inr, Bool, true, false, not, [], ◌∷◌, ◌++◌, All, none, some,
  Option, ◌==◌, ==_iff, if◌then◌else◌, Bool-cases, arith,
}
use mathlib.Core.Path.{subst}
use c_dns_pkt.Mem.{Bytes}
use c_dns_pkt.Slice.{
  Slice, split_ch, rsplit_ch, slice_splitch, slice_rsplit, in_set, span, slice_splitset,
}

-- The first `ch` of `str`, or that there is none.
abbrev pub SplitAt : ℕ → Bytes → Bytes → Option Bytes → Type 0
SplitAt ch str tok none = (str ≡ tok) × All (λ c. c ≢ ch) str
SplitAt ch str tok (some rest) = (str ≡ tok ++ ch ∷ rest) × All (λ c. c ≢ ch) tok

split_ch-SplitAt : (ch : ℕ) (str : Bytes) → SplitAt ch str (split_ch ch str).0 (split_ch ch str).1
unfolding split_ch
split_ch-SplitAt ch [] = (refl, tt)
split_ch-SplitAt ch (c ∷ cs) = elim (Bool-cases (c == ch)) [
  | inl e ↦ rw e (ap (λ (x : ℕ). x ∷ cs) ((==_iff c ch).0 e), tt)
  | inr e ↦ rw e (longer (split_ch ch cs) (split_ch-SplitAt ch cs) (ground arith))
]
  where
    longer :
        (r : Bytes × Option Bytes)
        → SplitAt ch cs r.0 r.1
        → c ≢ ch
        → SplitAt ch (c ∷ cs) (c ∷ r.0) r.1
    longer (tok, none) (e, a) ne = (ap (◌∷◌ c) e, (ne, a))
    longer (tok, some rest) (e, a) ne = (ap (◌∷◌ c) e, (ne, a))

-- `slice_splitch` on any slice that is not NULL returns a token without `ch`. With what is left it
-- makes up the slice, a `ch` between the two; if the slice has no `ch`, the token is the slice and
-- nothing is left.
pub slice_splitch-SplitAt :
    (str : Bytes) (ch : ℕ)
    → (tok : Bytes) × (rest : Option Bytes) × (slice_splitch (some str) ch ≡ (some tok, rest))
      × SplitAt ch str tok rest
unfolding slice_splitch
slice_splitch-SplitAt str ch =
    ((split_ch ch str).0, (split_ch ch str).1, refl, split_ch-SplitAt ch str)

-- The last `ch` of `str`, or that there is none.
abbrev pub RSplitAt : ℕ → Bytes → Slice → Slice → Type 0
RSplitAt ch str none left = (left ≡ some str) × All (λ c. c ≢ ch) str
RSplitAt ch str (some tok) none = ⊥
RSplitAt ch str (some tok) (some left) = (str ≡ left ++ ch ∷ tok) × All (λ c. c ≢ ch) tok

abbrev LastAt : ℕ → Bytes → Option (Bytes × Bytes) → Type 0
LastAt ch str none = All (λ c. c ≢ ch) str
LastAt ch str (some (left, tok)) = (str ≡ left ++ ch ∷ tok) × All (λ c. c ≢ ch) tok

rsplit_ch-LastAt : (ch : ℕ) (str : Bytes) → LastAt ch str (rsplit_ch ch str)
unfolding rsplit_ch
rsplit_ch-LastAt ch [] = tt
rsplit_ch-LastAt ch (c ∷ cs) = longer (rsplit_ch ch cs) (rsplit_ch-LastAt ch cs)
  where
    longer :
        (r : Option (Bytes × Bytes))
        → LastAt ch cs r
        → LastAt ch (c ∷ cs) (elim r [
          | some (l, t) ↦ some (c ∷ l, t)
          | none ↦ if c == ch then some ([], cs) else none
        ])
    longer (some (l, t)) (e, a) = (ap (◌∷◌ c) e, a)
    longer none a = elim (Bool-cases (c == ch)) [
      | inl e ↦ rw e (ap (λ (x : ℕ). x ∷ cs) ((==_iff c ch).0 e), a)
      | inr e ↦ rw e (ground arith, a)
    ]

-- `slice_rsplit` on any slice that is not NULL splits it at its last `ch`: the token behind it is
-- returned and the part before it is left. If there is no `ch`, NULL is returned and the slice stays.
pub slice_rsplit-RSplitAt :
    (str : Bytes) (ch : ℕ)
    → RSplitAt ch str (slice_rsplit (some str) ch).0 (slice_rsplit (some str) ch).1
unfolding slice_rsplit
slice_rsplit-RSplitAt str ch = of_last (rsplit_ch ch str) (rsplit_ch-LastAt ch str)
  where
    of_last :
        (r : Option (Bytes × Bytes))
        → LastAt ch str r
        → RSplitAt ch str
            (let s : Slice × Slice = elim r [
              | some (l, t) ↦ (some t, some l)
              | none ↦ (none, some str)
            ] in
              s.0)
            (let s : Slice × Slice = elim r [
              | some (l, t) ↦ (some t, some l)
              | none ↦ (none, some str)
            ] in
              s.1)
    of_last (some (l, t)) a = a
    of_last none a = (refl, a)

-- A front part without a stop, and a rest that is empty or begins with one.
abbrev pub Begins : (ℕ → Bool) → Bytes → Type 0
Begins stop [] = Unit {0}
Begins stop (c ∷ cs) = stop c ≡ true

abbrev SpanOf : (ℕ → Bool) → Bytes → Bytes × Bytes → Type 0
SpanOf stop str (front, rest) =
    (str ≡ front ++ rest) × All (λ c. stop c ≡ false) front × Begins stop rest

span-SpanOf : (stop : ℕ → Bool) (str : Bytes) → SpanOf stop str (span stop str)
unfolding span
span-SpanOf stop [] = (refl, tt, tt)
span-SpanOf stop (c ∷ cs) = elim (Bool-cases (stop c)) [
  | inl e ↦ rw e (refl, tt, e)
  | inr e ↦ rw e (longer (span stop cs) (span-SpanOf stop cs) e)
]
  where
    longer :
        (r : Bytes × Bytes)
        → SpanOf stop cs r
        → stop c ≡ false
        → SpanOf stop (c ∷ cs) (c ∷ r.0, r.1)
    longer (front, rest) (e, a, b) f = (ap (◌∷◌ c) e, (f, a), b)

-- A token of the slice, the delimiters behind it, and the rest.
pub record Token (set src tok rest : Bytes) : Type 0 where
  pub skipped : Bytes
  pub whole : src ≡ tok ++ (skipped ++ rest)
  pub bare : All (λ c. in_set set c ≡ false) tok
  pub delims : All (λ c. not (in_set set c) ≡ false) skipped
  pub next : Begins (λ c. not (in_set set c)) rest
  pub stops : Begins (in_set set) (skipped ++ rest)

-- `slice_splitset` on any slice returns its longest front part without a delimiter, and leaves what
-- stands behind the delimiters that follow it, which begins with none.
pub slice_splitset-Token :
    (src set : Bytes) → Token set src (slice_splitset src set).0 (slice_splitset src set).1
unfolding slice_splitset
slice_splitset-Token src set =
    let rest = (span (in_set set) src).1 in
    let (whole, bare, stops) = span-SpanOf (in_set set) src in
    let (behind, delims, next) = span-SpanOf (λ c. not (in_set set c)) rest in
    record {
      skipped = (span (λ c. not (in_set set c)) rest).0;
      whole = whole ∙ ap (λ (r : Bytes). (span (in_set set) src).0 ++ r) behind;
      bare = bare;
      delims = delims;
      next = next;
      stops = subst (Begins (in_set set)) behind stops;
    }
