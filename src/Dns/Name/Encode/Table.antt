-- ===== src/Dns/Name/Encode/Table.antt =====
-- What the suffix table of `struct dns_enc` promises: each entry leads to its name, up to case.
use c_dns_pkt.Prelude.{
  ℕ, ◌+◌, ◌^◌, ◌≤◌, ◌<◌, ◌≡◌, true, List, [], ◌∷◌, All, bit_or, Option, none, some, ltb,
  if◌then◌else◌, get_elem?, arith, Bool-cases, inl, inr,
}
use c_dns_pkt.Prelude.Bits.{or_disjoint}
use c_dns_pkt.Mem.{Bytes}
use c_dns_pkt.Dns.Name.Wire.{NameAt, NameAt_extend, Extends}
use c_dns_pkt.Dns.Name.Encode.{Suffix, same_text, find_suffix}

-- The first `n` bytes of a buffer.
abbrev pub prefix : Bytes → ℕ → ℕ → Option ℕ
prefix buf n i = if ltb i n then get_elem? buf i else none

pub prefix_mono :
    (buf buf' : Bytes) (n n' : ℕ)
    → n ≤ n'
    → ((i : ℕ) → i < n → get_elem? buf' i ≡ get_elem? buf i)
    → Extends (prefix buf n) (prefix buf' n')
prefix_mono buf buf' n n' h same i b e = elim (Bool-cases (ltb i n)) [
  | inl t ↦ ground (arith, same i)
  | inr t ↦ ground arith
]

-- The entry leads to its name, by `depth` pointers at most, within the first `n` bytes.
pub record IsValid (buf : Bytes) (n depth : ℕ) (s : Suffix) : Type 0 where
  pub text : Bytes
  pub after : ℕ
  pub jumps : ℕ
  pub stands : NameAt (prefix buf n) s.offset after jumps text
  pub same : same_text text s.name ≡ true
  pub shallow : jumps ≤ depth
  pub low : 12 ≤ s.offset
  pub high : s.offset < 2 ^ 14

pub IsValid-mono :
    (buf buf' : Bytes) (n n' depth depth' : ℕ) (s : Suffix)
    → n ≤ n'
    → depth ≤ depth'
    → ((i : ℕ) → i < n → get_elem? buf' i ≡ get_elem? buf i)
    → IsValid buf n depth s
    → IsValid buf' n' depth' s
IsValid-mono buf buf' n n' depth depth' s h d same v = record {
  text = v.text;
  after = v.after;
  jumps = v.jumps;
  stands = NameAt_extend (prefix_mono buf buf' n n' h same) v.stands;
  same = v.same;
  shallow = omega arith;
  low = v.low;
  high = v.high;
}

-- While a name is written at `start`, the entries in front of it are the valid ones.
abbrev pub Usable : Bytes → ℕ → ℕ → Suffix → Type 0
Usable buf start depth s = s.offset < start → IsValid buf start depth s

-- The entry that the search returns.
pub find_suffix-IsValid :
    (buf : Bytes) (start depth : ℕ) (table : List Suffix) (name : Bytes) (offset : ℕ)
    → All (Usable buf start depth) table
    → find_suffix table start name ≡ some offset
    → (s : Suffix) × IsValid buf start depth s
      × (s.offset ≡ offset)
      × (s.offset < start)
      × (same_text s.name name ≡ true)
unfolding find_suffix
find_suffix-IsValid buf start depth [] name offset h e = cc
find_suffix-IsValid buf start depth (s ∷ table) name offset (u, h) e =
    elim (Bool-cases (ltb s.offset start)) [
      | inl t ↦ elim (Bool-cases (same_text s.name name)) [
        | inl m ↦ (s, u (ground arith), ground arith, ground arith, m)
        | inr m ↦ find_suffix-IsValid buf start depth table name offset h (ground arith)
      ]
      | inr t ↦ find_suffix-IsValid buf start depth table name offset h (ground arith)
    ]

-- The two bytes of a compression pointer.
pub pointer_bytes : (offset : ℕ) → offset < 2 ^ 14 → bit_or 0xC000 offset ≡ 0xC000 + offset
pointer_bytes offset h = or_disjoint 14 3 offset h
