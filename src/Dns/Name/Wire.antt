-- ===== src/Dns/Name/Wire.antt =====
-- What a domain name on the wire is (rfc1035, 3.1 and 4.1.4), stated without the code: labels that
-- end in a zero byte or in a pointer to a name elsewhere.
use c_dns_pkt.Prelude.{
  ℕ, suc, ◌+◌, ◌*◌, ◌%◌, ◌≤◌, ◌<◌, ◌≡◌, [], ◌∷◌, ◌++◌, length, Option, some, ◌==◌, if◌then◌else◌,
}
use c_dns_pkt.Mem.{Bytes, Reads}

-- Where a pointer leads: its lower 14 bits.
abbrev pub pointer_target : ℕ → ℕ → ℕ
pointer_target hi lo = hi % 64 * 256 + lo

-- The text of the names behind a label: a dot stands before it unless the next byte is zero.
abbrev pub dot_text : ℕ → Bytes → Bytes
dot_text next text = if next == 0 then text else b'.' ∷ text

-- At `p` stands a name that goes through `jumps` pointers, has the text `text`, and whose own bytes
-- end in front of `after`.
pub data NameAt (read : ℕ → Option ℕ) : ℕ → ℕ → ℕ → Bytes → Type 0 where
  root : {p after : ℕ} → read p ≡ some 0 → after ≡ p + 1 → NameAt read p after 0 []
  label :
      {p q after jumps len next : ℕ} {text full : Bytes} (bytes : Bytes)
      → read p ≡ some len
      → 0 < len
      → len < 192
      → length bytes ≡ len
      → Reads read (p + 1) bytes
      → q ≡ p + 1 + len
      → read q ≡ some next
      → NameAt read q after jumps text
      → full ≡ bytes ++ dot_text next text
      → NameAt read p after jumps full
  pointer :
      {p q after rest jumps hi lo : ℕ} {text : Bytes}
      → read p ≡ some hi
      → 192 ≤ hi
      → read (p + 1) ≡ some lo
      → q ≡ pointer_target hi lo
      → 12 ≤ q
      → NameAt read q rest jumps text
      → after ≡ p + 2
      → NameAt read p after (suc jumps) text

-- There is a byte where a name begins.
pub NameAt_begins :
    {read : ℕ → Option ℕ} {p after jumps : ℕ} {text : Bytes}
    → NameAt read p after jumps text
    → (b : ℕ) × (read p ≡ some b)
NameAt_begins (root h _) = (0, h)
NameAt_begins (label {len} _ h _ _ _ _ _ _ _ _) = (len, h)
NameAt_begins (pointer {hi} h _ _ _ _ _ _) = (hi, h)

abbrev pub Extends : (ℕ → Option ℕ) → (ℕ → Option ℕ) → Type 0
Extends read read' = (i b : ℕ) → read i ≡ some b → read' i ≡ some b

pub Reads-extend :
    (read read' : ℕ → Option ℕ) (i : ℕ) (bs : Bytes)
    → Extends read read'
    → Reads read i bs
    → Reads read' i bs
Reads-extend read read' i [] e h = tt
Reads-extend read read' i (b ∷ bs) e (h, t) = (e i b h, Reads-extend read read' (i + 1) bs e t)

-- A name stays a name where more can be read.
pub NameAt_extend :
    {read read' : ℕ → Option ℕ} {p after jumps : ℕ} {text : Bytes}
    → Extends read read'
    → NameAt read p after jumps text
    → NameAt read' p after jumps text
NameAt_extend e (root h a) = root (e _ _ h) a
NameAt_extend {read} {read'} e (label bytes h l u n r q k t f) =
    label bytes (e _ _ h) l u n (Reads-extend read read' _ bytes e r) q (e _ _ k)
      (NameAt_extend e t) f
NameAt_extend e (pointer h l k q b t a) = pointer (e _ _ h) l (e _ _ k) q b (NameAt_extend e t) a
