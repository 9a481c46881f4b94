-- ===== src/Sbuf/Text.antt =====
-- What the calls of src/str_util.h that append to a string buffer leave, as text.
use c_dns_pkt.Prelude.{
  ℕ, ◌+◌, ◌≤◌, ◌<◌, ◌≡◌, refl, ap, sym, ◌∙◌, [], ◌∷◌, ◌++◌, length, length-append, take, set,
  Option, Exec, ok, ◌>>=◌, leb, arith, Bool-cases, inl, inr, ◌⊎◌, zero, suc, some, none,
}
use mathlib.Core.List.{append_assoc, append-nil}
use mathlib.Core.Path.{subst}
use c_dns_pkt.Mem.{Bytes, splice}
use c_dns_pkt.Mem.Laws.{length-splice, write_at_lem}
use c_dns_pkt.Sbuf.{
  Sbuf, sbuf_mksp, sbuf_rem, sbuf_putm, sbuf_putmc, sbuf_putcm, sbuf_store, in_space,
}

-- What the buffer holds.
abbrev pub text : Sbuf → Bytes
text buf = take buf.ptr buf.mem

-- The position lies within the memory.
abbrev pub InBounds : Sbuf → Type 0
InBounds buf = buf.ptr ≤ length buf.mem

-- One call that appends `bs`: it fits and is appended, or nothing changes.
abbrev pub Appends : Bytes → Sbuf → Sbuf → ℕ → Type 0
Appends bs buf buf' n =
    ((buf.ptr + length bs ≤ length buf.mem)
      × (text buf' ≡ text buf ++ bs)
      × (n ≡ length bs)
      × (buf'.ptr ≡ buf.ptr + length bs))
    ⊎ ((length buf.mem < buf.ptr + length bs) × (buf' ≡ buf) × (n ≡ 0))

-- The call returns, within the same memory.
abbrev pub Puts : Bytes → Sbuf → Exec (Sbuf × ℕ) → Type 0
Puts bs buf run =
    (buf' : Sbuf) × (n : ℕ) × (run ≡ ok (buf', n))
    × Appends bs buf buf' n
    × (length buf'.mem ≡ length buf.mem)

splice-cons :
    (n : ℕ) (bs : Bytes) (x : ℕ) (xs : Bytes) → splice (suc n) bs (x ∷ xs) ≡ x ∷ splice n bs xs
unfolding splice
splice-cons n [] x xs = refl
splice-cons n (b ∷ bs) x xs =
    let next : suc n + 1 ≡ suc (n + 1) = omega arith in
    rw next (splice-cons (n + 1) bs x (set xs n b))

take-splice_front :
    (bs buf : Bytes) → length bs ≤ length buf → take (length bs) (splice 0 bs buf) ≡ bs
unfolding splice
take-splice_front [] buf h = refl
take-splice_front (b ∷ bs) [] h = absurd (omega arith)
take-splice_front (b ∷ bs) (x ∷ xs) h =
    rw (splice-cons 0 bs b xs) (ap (◌∷◌ b) (take-splice_front bs xs (omega arith)))

-- A write behind the first `n` bytes appends to them.
pub take-splice :
    (n : ℕ) (bs buf : Bytes)
    → n + length bs ≤ length buf
    → take (n + length bs) (splice n bs buf) ≡ take n buf ++ bs
take-splice zero bs buf h =
    let whole : 0 + length bs ≡ length bs = omega arith in
    rw whole (take-splice_front bs buf (omega arith))
take-splice (suc n) bs [] h = absurd (omega arith)
take-splice (suc n) bs (x ∷ xs) h =
    let next : suc n + length bs ≡ suc (n + length bs) = omega arith in
    rw (next, splice-cons n bs x xs) (ap (◌∷◌ x) (take-splice n bs xs (omega arith)))

module _ (buf : Sbuf) where
  mksp_fits :
      (len : ℕ)
      → buf.ptr + len ≤ length buf.mem
      → ◌≡◌ {A = Sbuf × Option ℕ}
          (sbuf_mksp buf len)
          (record buf { ptr = buf.ptr + len }, some buf.ptr)
  unfolding sbuf_mksp sbuf_rem
  mksp_fits len h = ground arith

  mksp_full :
      (len : ℕ)
      → InBounds buf
      → length buf.mem < buf.ptr + len
      → ◌≡◌ {A = Sbuf × Option ℕ} (sbuf_mksp buf len) (buf, none)
  unfolding sbuf_mksp sbuf_rem
  mksp_full len b h = ground arith

  pub sbuf_putm-Puts : (bs : Bytes) → InBounds buf → Puts bs buf (sbuf_putm buf bs)
  unfolding sbuf_putm
  sbuf_putm-Puts bs b = elim (Bool-cases (leb (buf.ptr + length bs) (length buf.mem))) [
    | inl t ↦
        let fits : buf.ptr + length bs ≤ length buf.mem = ground arith in
        (
          record { mem = splice buf.ptr bs buf.mem; ptr = buf.ptr + length bs },
          length bs,
          rw (mksp_fits (length bs) fits, write_at_lem buf.ptr bs buf.mem fits) refl,
          inl (fits, take-splice buf.ptr bs buf.mem fits, refl, refl),
          length-splice buf.ptr bs buf.mem,
        )
    | inr f ↦ (
      buf,
      0,
      rw (mksp_full (length bs) b (ground arith)) refl,
      inr (ground arith, refl, refl),
      refl,
    )
  ]

  -- Two stores, one behind the other, are the store of both.
  two_stores :
      (xs ys : Bytes)
      → InBounds buf
      → Puts (xs ++ ys) buf (
          in_space (sbuf_mksp buf (length (xs ++ ys))) (λ buf wptr. do
            buf ← sbuf_store buf wptr xs
            buf ← sbuf_store buf (wptr + length xs) ys
            ok (buf, length (xs ++ ys))))
  two_stores xs ys b = elim (Bool-cases (leb (buf.ptr + length (xs ++ ys)) (length buf.mem))) [
    | inl t ↦
        let fits : buf.ptr + length (xs ++ ys) ≤ length buf.mem = ground arith in
        let both = length-append xs ys in
        let one = splice buf.ptr xs buf.mem in
        let size = length-splice buf.ptr xs buf.mem in
        let first = write_at_lem buf.ptr xs buf.mem (omega arith) in
        let second = write_at_lem (buf.ptr + length xs) ys one (omega arith) in
        (
          record { mem = splice (buf.ptr + length xs) ys one; ptr = buf.ptr + length (xs ++ ys) },
          length (xs ++ ys),
          rw (mksp_fits (length (xs ++ ys)) fits, first, second) refl,
          inl (
            fits,
            ap (λ (n : ℕ). take n (splice (buf.ptr + length xs) ys one)) (omega arith)
                ∙ take-splice (buf.ptr + length xs) ys one (omega arith)
                ∙ ap (λ (t : Bytes). t ++ ys) (take-splice buf.ptr xs buf.mem (omega arith))
                ∙ append_assoc (text buf) xs ys,
            refl,
            refl,
          ),
          length-splice (buf.ptr + length xs) ys one ∙ size,
        )
    | inr f ↦ (
      buf,
      0,
      rw (mksp_full (length (xs ++ ys)) b (ground arith)) refl,
      inr (ground arith, refl, refl),
      refl,
    )
  ]

  pub sbuf_putmc-Puts :
      (bs : Bytes) (c : ℕ) → InBounds buf → Puts (bs ++ c ∷ []) buf (sbuf_putmc buf bs c)
  unfolding sbuf_putmc
  sbuf_putmc-Puts bs c b =
      subst
        (λ n. Puts (bs ++ c ∷ []) buf (
          in_space (sbuf_mksp buf n) (λ buf wptr. do
            buf ← sbuf_store buf wptr bs
            buf ← sbuf_store buf (wptr + length bs) (c ∷ [])
            ok (buf, n))))
        (length-append bs (c ∷ [])) (two_stores bs (c ∷ []) b)

  pub sbuf_putcm-Puts :
      (c : ℕ) (bs : Bytes) → InBounds buf → Puts (c ∷ bs) buf (sbuf_putcm buf c bs)
  unfolding sbuf_putcm
  sbuf_putcm-Puts c bs b =
      subst
        (λ n. Puts (c ∷ bs) buf (
          in_space (sbuf_mksp buf n) (λ buf wptr. do
            buf ← sbuf_store buf wptr (c ∷ [])
            buf ← sbuf_store buf (wptr + 1) bs
            ok (buf, n))))
        {x = suc (length bs)} (omega arith) (two_stores (c ∷ []) bs b)

  -- A call that appends nothing.
  pub nothing-Puts : InBounds buf → Puts [] buf (ok (buf, 0))
  nothing-Puts b =
      (buf, 0, refl, inl (omega arith, sym (append-nil (text buf)), refl, omega arith), refl)

pub length-text : (buf : Sbuf) → InBounds buf → length (text buf) ≡ buf.ptr
length-text buf b = length-take buf.ptr buf.mem b
  where
    length-take : (n : ℕ) (xs : Bytes) → n ≤ length xs → length (take n xs) ≡ n
    length-take zero xs h = refl
    length-take (suc n) [] h = absurd (omega arith)
    length-take (suc n) (x ∷ xs) h = ap suc (length-take n xs (omega arith))
