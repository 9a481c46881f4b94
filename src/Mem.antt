-- ===== src/Mem.antt =====
-- Byte buffers as the C code uses them: a buffer is the list of its bytes and a pointer into it is
-- an index. A read or a write outside of the buffer is a fault.
pub mod Laws
pub mod Text
use Prim.Native.Char.{code}
use Prim.Native.String.{String}
use c_dns_pkt.Prelude.{
  ℕ, zero, suc, ◌+◌, ◌<◌, ◌≡◌, List, [], ◌∷◌, length, get_elem?, some, none, Option, set, take,
  drop, Exec, ok, fault, must, leb, ◌>>=◌, if◌then◌else◌,
}

abbrev pub Bytes : Type 0
Bytes = List ℕ

abbrev pub IsByte : ℕ → Type 0
IsByte b = b < 256

-- The buffer with `bs` over its contents from index `i` on.
unfoldable pub splice : ℕ → Bytes → Bytes → Bytes
splice i [] buf = buf
splice i (b ∷ bs) buf = splice (i + 1) bs (set buf i b)

-- memcpy into a buffer: `bs` goes to index `i`.
unfoldable pub write_at : ℕ → Bytes → Bytes → Exec Bytes
write_at i bs buf = if leb (i + length bs) (length buf) then ok (splice i bs buf) else fault

-- memcpy out of a buffer: `n` bytes from index `i`.
unfoldable pub read_at : ℕ → ℕ → Bytes → Exec Bytes
read_at i n buf = if leb (i + n) (length buf) then ok (take n (drop i buf)) else fault

-- `buf[i]`
abbrev pub byte_at : Bytes → ℕ → Exec ℕ
byte_at buf i = must (get_elem? buf i)

-- The bytes `bs` are what `read` gives from index `i` on.
abbrev pub Reads : (ℕ → Option ℕ) → ℕ → Bytes → Type 0
Reads read i [] = Unit {0}
Reads read i (b ∷ bs) = (read i ≡ some b) × Reads read (i + 1) bs

-- The bytes `bs` stand in the buffer from index `i` on.
abbrev pub At : Bytes → ℕ → Bytes → Type 0
At buf = Reads (get_elem? buf)

-- A C string of a caller: its bytes up to the zero byte, or `none` for NULL.
abbrev pub Str : Type 0
Str = Option Bytes

abbrev pub or_empty : Str → Bytes
or_empty none = []
or_empty (some bs) = bs

-- A C string that is read from memory: the bytes in front of the first zero byte. Memory without a
-- zero byte is a fault.
unfoldable pub until_zero : Bytes → Exec Bytes
until_zero [] = fault
until_zero (zero ∷ bs) = ok []
until_zero (suc c ∷ bs) = do rest ← until_zero bs; ok (suc c ∷ rest)

-- The C string at an index of a buffer.
unfoldable pub c_string : ℕ → Bytes → Exec Bytes
c_string i buf = until_zero (drop i buf)

-- A string literal.
abbrev pub codes : String → Bytes
codes String.[] = []
codes (String.◌∷◌ c s) = code c ∷ codes s
