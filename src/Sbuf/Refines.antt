-- ===== src/Sbuf/Refines.antt =====
-- The string buffers of src/str_util.h as bounded strings: sequences of calls against a specification.
use c_dns_pkt.Prelude.{
  ℕ, ◌+◌, ◌≡◌, refl, sym, ap, ◌∙◌, List, [], ◌∷◌, ◌++◌, length, some, none, true, false, Exec, ok,
  ◌>>=◌, leb, if◌then◌else◌, ◌==◌, arith, inl, inr, Bool-cases,
}
use mathlib.Core.Path.{subst}
use c_dns_pkt.Mem.{Bytes, Str}
use c_dns_pkt.Sbuf.{
  Sbuf, sbuf_reset, sbuf_pos, sbuf_putm, sbuf_putmc, sbuf_putmz, sbuf_putcm, sbuf_puticm, sbuf_puts,
  sbuf_putcs,
}
use c_dns_pkt.Sbuf.Text.{
  text, InBounds, Puts, sbuf_putm-Puts, sbuf_putmc-Puts, sbuf_putcm-Puts, length-text,
}

-- One call on a buffer.
pub data Call : Type 0 where
  reset : Call
  putm : Bytes → Call
  putmc : Bytes → ℕ → Call
  putmz : Bytes → Call
  putcm : ℕ → Bytes → Call
  puticm : ℕ → Bytes → Call
  puts : Str → Call
  putcs : ℕ → Str → Call

abbrev run_call : Call → Sbuf → Exec (Sbuf × ℕ)
run_call reset buf = ok (sbuf_reset buf, 0)
run_call (putm mem) buf = sbuf_putm buf mem
run_call (putmc mem c) buf = sbuf_putmc buf mem c
run_call (putmz mem) buf = sbuf_putmz buf mem
run_call (putcm c mem) buf = sbuf_putcm buf c mem
run_call (puticm ch mem) buf = sbuf_puticm buf ch mem
run_call (puts str) buf = sbuf_puts buf str
run_call (putcs ch str) buf = sbuf_putcs buf ch str

-- The calls one after the other, with the counts that they return.
unfoldable pub run_calls : List Call → Sbuf → Exec (Sbuf × List ℕ)
run_calls [] buf = ok (buf, [])
run_calls (c ∷ rest) buf = do
  (buf, n) ← run_call c buf
  (buf, ns) ← run_calls rest buf
  ok (buf, n ∷ ns)

-- The specification: a string of `cap` bytes at most, to which bytes are appended as a whole or not at
-- all.
abbrev pub put_all : ℕ → Bytes → Bytes → Bytes × ℕ
put_all cap held bs =
    if leb (length held + length bs) cap then (held ++ bs, length bs) else (held, 0)

abbrev pub spec_call : ℕ → Call → Bytes → Bytes × ℕ
spec_call cap reset held = ([], 0)
spec_call cap (putm mem) held = put_all cap held mem
spec_call cap (putmc mem c) held = put_all cap held (mem ++ c ∷ [])
spec_call cap (putmz mem) held = put_all cap held (mem ++ 0 ∷ [])
spec_call cap (putcm c mem) held = put_all cap held (c ∷ mem)
spec_call cap (puticm ch mem) held = put_all cap held (if length held == 0 then mem else ch ∷ mem)
spec_call cap (puts none) held = (held, 0)
spec_call cap (puts (some str)) held = put_all cap held str
spec_call cap (putcs ch none) held = (held, 0)
spec_call cap (putcs ch (some str)) held = put_all cap held (ch ∷ str)

unfoldable pub spec_calls : ℕ → List Call → Bytes → Bytes × List ℕ
spec_calls cap [] held = (held, [])
spec_calls cap (c ∷ rest) held =
    let (held, n) = spec_call cap c held in
    let (held, ns) = spec_calls cap rest held in (held, n ∷ ns)

-- What a call must do: it returns, within the same memory, and the text and the count are those of the
-- specification.
abbrev Meets : Sbuf → Bytes × ℕ → Exec (Sbuf × ℕ) → Type 0
Meets buf spec run =
    (buf' : Sbuf) × (n : ℕ) × (run ≡ ok (buf', n))
    × InBounds buf'
    × (length buf'.mem ≡ length buf.mem)
    × (◌≡◌ {A = Bytes × ℕ} (text buf', n) spec)

Puts-Meets :
    (buf : Sbuf) (bs : Bytes) (run : Exec (Sbuf × ℕ))
    → InBounds buf
    → Puts bs buf run
    → Meets buf (put_all (length buf.mem) (text buf) bs) run
Puts-Meets buf bs run b (buf', n, e, inl (fits, t, k, p), m) =
    let room : leb (length (text buf) + length bs) (length buf.mem) ≡ true =
      ground (arith, length-text buf b) in
    (buf', n, e, omega arith, m, rw (room, t, k) refl)
Puts-Meets buf bs run b (buf', n, e, inr (full, t, k), m) =
    let over : leb (length (text buf) + length bs) (length buf.mem) ≡ false =
      ground (arith, length-text buf b) in
    (buf', n, e, subst InBounds (sym t) b, m, rw (over, t, k) refl)

call-Meets :
    (c : Call) (buf : Sbuf)
    → InBounds buf
    → Meets buf (spec_call (length buf.mem) c (text buf)) (run_call c buf)
unfolding sbuf_reset sbuf_putmz sbuf_puticm sbuf_pos sbuf_puts sbuf_putcs
call-Meets reset buf b = (sbuf_reset buf, 0, refl, omega arith, refl, refl)
call-Meets (putm mem) buf b = Puts-Meets buf mem _ b (sbuf_putm-Puts buf mem b)
call-Meets (putmc mem c) buf b = Puts-Meets buf _ _ b (sbuf_putmc-Puts buf mem c b)
call-Meets (putmz mem) buf b = Puts-Meets buf _ _ b (sbuf_putmc-Puts buf mem 0 b)
call-Meets (putcm c mem) buf b = Puts-Meets buf _ _ b (sbuf_putcm-Puts buf c mem b)
call-Meets (puticm ch mem) buf b =
    let size = length-text buf b in
    elim (Bool-cases (buf.ptr == 0)) [
      | inl z ↦
          let bare : (length (text buf) == 0) ≡ true = rw size z in
          rw (z, bare) (Puts-Meets buf mem _ b (sbuf_putm-Puts buf mem b))
      | inr z ↦
          let used : (length (text buf) == 0) ≡ false = rw size z in
          rw (z, used) (Puts-Meets buf (ch ∷ mem) _ b (sbuf_putcm-Puts buf ch mem b))
    ]
call-Meets (puts none) buf b = (buf, 0, refl, b, refl, refl)
call-Meets (puts (some str)) buf b = Puts-Meets buf str _ b (sbuf_putm-Puts buf str b)
call-Meets (putcs ch none) buf b = (buf, 0, refl, b, refl, refl)
call-Meets (putcs ch (some str)) buf b = Puts-Meets buf _ _ b (sbuf_putcm-Puts buf ch str b)

abbrev with_count : ℕ → Bytes × List ℕ → Bytes × List ℕ
with_count n (held, ns) = (held, n ∷ ns)

-- Every sequence of calls on a buffer whose position is in bounds returns, leaves the position in
-- bounds, and leaves the text and returns the counts of a string bounded by the size of the memory.
pub run_calls-spec_calls :
    (calls : List Call) (buf : Sbuf)
    → InBounds buf
    → (buf' : Sbuf) × (ns : List ℕ) × (run_calls calls buf ≡ ok (buf', ns))
      × InBounds buf'
      × (◌≡◌ {A = Bytes × List ℕ} (text buf', ns) (spec_calls (length buf.mem) calls (text buf)))
unfolding run_calls spec_calls
run_calls-spec_calls [] buf b = (buf, [], refl, b, refl)
run_calls-spec_calls (c ∷ rest) buf b =
    let (one, n, e, b1, m, s) = call-Meets c buf b in
    let (buf', ns, e', b', s') = run_calls-spec_calls rest one b1 in
    (
      buf',
      n ∷ ns,
      rw (e, e') refl,
      b',
      ap (λ (r : Bytes × List ℕ). with_count n r)
            (s' ∙ ap (λ (k : ℕ). spec_calls k rest (text one)) m)
          ∙ ap (λ (r : Bytes × ℕ). with_count r.1 (spec_calls (length buf.mem) rest r.0)) s,
    )
