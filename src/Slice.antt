-- ===== src/Slice.antt =====
-- The string slices of src/str_util.h and the helpers on pointer and length that they stand on. A
-- slice is the bytes that its length covers, or `none` for a null pointer with length 0.
pub mod Split
pub mod Trim
pub mod Number
pub mod Unbracket
use c_dns_pkt.Prelude.{
  ℕ, zero, suc, ◌+◌, ◌-◌, ◌*◌, ◌%◌, ◌^◌, Bool, true, false, ◌&&◌, ◌||◌, not, [], ◌∷◌, ◌++◌, length,
  Option, none, some, drop, Exec, ok, ◌>>=◌, ltb, leb, ◌==◌, if◌then◌else◌,
}
use c_dns_pkt.Mem.{Bytes, Str, or_empty, write_at, byte_at}

abbrev pub is_white : ℕ → Bool
is_white ch = ch == b' ' || ch == 9 || ch == 11 || ch == 13 || ch == 10

abbrev pub is_numeral : ℕ → Bool
is_numeral ch = leb b'0' ch && leb ch b'9'

abbrev pub lower_char : ℕ → ℕ
lower_char ch = if leb b'A' ch && leb ch b'Z' then ch + 0x20 else ch

abbrev pub upper_char : ℕ → ℕ
upper_char ch = if leb b'a' ch && leb ch b'z' then ch - 0x20 else ch

unfoldable pub str_tolower : Bytes → Bytes
str_tolower [] = []
str_tolower (ch ∷ str) = lower_char ch ∷ str_tolower str

unfoldable pub str_toupper : Bytes → Bytes
str_toupper [] = []
str_toupper (ch ∷ str) = upper_char ch ∷ str_toupper str

unfoldable pub str_countch : Bytes → ℕ → ℕ
str_countch [] ch = 0
str_countch (c ∷ str) ch = if c == ch then str_countch str ch + 1 else str_countch str ch

abbrev all_numerals : Bytes → Bool
all_numerals [] = true
all_numerals (ch ∷ str) = is_numeral ch && all_numerals str

unfoldable pub str_isnumeric : Bytes → Bool
str_isnumeric [] = false
str_isnumeric (ch ∷ str) = all_numerals (ch ∷ str)

-- The loop of `str_tou32`; the sums are those of a uint32_t.
unfoldable pub tou32_loop : ℕ → Bytes → ℕ
tou32_loop val [] = val
tou32_loop val (ch ∷ str) =
    let rest = tou32_loop ((val * 2 ^ 3 + val * 2 + (ch - b'0')) % 2 ^ 32) str in
    if is_numeral ch then rest else val

unfoldable pub str_tou32 : Bytes → ℕ
str_tou32 str = tou32_loop 0 str

unfoldable pub str_startswith : Bytes → ℕ → Bool
str_startswith [] ch = false
str_startswith (c ∷ str) ch = c == ch

unfoldable pub str_endswith : Bytes → ℕ → Bool
str_endswith [] ch = false
str_endswith (c ∷ []) ch = c == ch
str_endswith (c ∷ d ∷ str) ch = str_endswith (d ∷ str) ch

abbrev pub Slice : Type 0
Slice = Str

-- `memchr`: what stands before the first `ch`, and behind it if there is one.
unfoldable pub split_ch : ℕ → Bytes → Bytes × Option Bytes
split_ch ch [] = ([], none)
split_ch ch (c ∷ cs) =
    let (tok, rest) = split_ch ch cs in if c == ch then ([], some cs) else (c ∷ tok, rest)

-- `memrchr`: what stands before the last `ch` and behind it, if there is one.
unfoldable pub rsplit_ch : ℕ → Bytes → Option (Bytes × Bytes)
rsplit_ch ch [] = none
rsplit_ch ch (c ∷ cs) = elim (rsplit_ch ch cs) [
  | some (l, r) ↦ some (c ∷ l, r)
  | none ↦ if c == ch then some ([], cs) else none
]

unfoldable pub slice_chop : Slice → ℕ → Slice
slice_chop none ch = none
slice_chop (some str) ch = some (split_ch ch str).0

-- The token that is returned, and what is left in `src`.
unfoldable pub slice_splitch : Slice → ℕ → Slice × Slice
slice_splitch none ch = (none, none)
slice_splitch (some str) ch = let (tok, rest) = split_ch ch str in (some tok, rest)

unfoldable pub slice_rsplit : Slice → ℕ → Slice × Slice
slice_rsplit none ch = (none, none)
slice_rsplit (some str) ch = elim (rsplit_ch ch str) [
  | some (left, tok) ↦ (some tok, some left)
  | none ↦ (none, some str)
]

-- `memchr(set, ch, set_len)` is not NULL.
abbrev pub in_set : Bytes → ℕ → Bool
in_set [] ch = false
in_set (c ∷ set) ch = c == ch || in_set set ch

-- The bytes of `str` in front of the first that `stop` holds of, and the others.
unfoldable pub span : (ℕ → Bool) → Bytes → Bytes × Bytes
span stop [] = ([], [])
span stop (c ∷ cs) =
    let (front, rest) = span stop cs in if stop c then ([], c ∷ cs) else (c ∷ front, rest)

-- The two loops: to the first delimiter, and past the delimiters.
unfoldable pub slice_splitset : Bytes → Bytes → Bytes × Bytes
slice_splitset src set =
    let (tok, rest) = span (in_set set) src in (tok, (span (λ c. not (in_set set c)) rest).1)

unfoldable pub slice_ltrim : Bytes → Bytes
slice_ltrim [] = []
slice_ltrim (c ∷ cs) = if is_white c then slice_ltrim cs else c ∷ cs

-- White space is dropped from the end on.
unfoldable pub slice_rtrim : Bytes → Bytes
slice_rtrim [] = []
slice_rtrim (c ∷ cs) = elim (slice_rtrim cs) [
  | [] ↦ if is_white c then [] else c ∷ []
  | d ∷ ds ↦ c ∷ d ∷ ds
]

unfoldable pub slice_trim : Bytes → Bytes
slice_trim str = slice_ltrim (slice_rtrim str)

-- `dst` is a buffer of `len` bytes at least; the result is its contents and what is returned.
unfoldable pub slice_tocstr : Bytes → Bytes → ℕ → Exec (Bytes × Bool)
slice_tocstr val dst len =
    if ltb len (length val + 1)
    then ok (dst, false)
    else (do dst ← write_at 0 (val ++ 0 ∷ []) dst; ok (dst, true))

-- `mem` is the bytes from the pointer of the slice to the end of the buffer, and `len` its length. The
-- length is a size_t.
unfoldable pub slice_unbracket : Bytes → ℕ → ℕ → ℕ → Exec (Bytes × ℕ)
slice_unbracket mem len left right = if len == 0 then ok (mem, len) else (do
  first ← byte_at mem 0
  if first == left
      then (do
        end ← byte_at (drop 1 mem) (len - 1)
        ok (drop 1 mem, if end == right then (len - 1 + 2 ^ 64 - 1) % 2 ^ 64 else len - 1))
      else ok (mem, len))
