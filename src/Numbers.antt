-- ===== src/Numbers.antt =====
-- Numbers as text: `itoa`, `u32toa`, `int_tostr` and `u32_tostr` of src/util.c, and what the decimal
-- conversions of printf write.
pub mod Decimal
use c_dns_pkt.Prelude.{
  ℕ, zero, suc, ◌+◌, ◌-◌, ◌/◌, ◌%◌, Bool, true, false, [], ◌∷◌, length, Exec, ok, fault, stuck,
  ◌>>=◌, ℤ, pos, negsuc, ltb, ◌==◌, if◌then◌else◌,
}
use c_dns_pkt.Mem.{Bytes, write_at, c_string}

-- The decimal digits of a number of `fuel` digits at most, in front of `acc`.
unfoldable pub decimal_digits : ℕ → ℕ → Bytes → Bytes
decimal_digits zero val acc = acc
decimal_digits (suc fuel) val acc =
    let acc = (val % 10 + b'0') ∷ acc in
    let rest = decimal_digits fuel (val / 10) acc in if ltb val 10 then acc else rest

-- `%u`, and `%d` of a value that is not negative. A uint32_t has 10 digits at most.
abbrev pub decimal : ℕ → Bytes
decimal val = decimal_digits 10 val []

abbrev hex_digit : ℕ → ℕ
hex_digit d = if ltb d 10 then d + b'0' else d - 10 + b'a'

-- `%04x` of a uint16_t
abbrev pub hex4 : ℕ → Bytes
hex4 val =
    hex_digit (val / 4096 % 16)
    ∷ hex_digit (val / 256 % 16)
    ∷ hex_digit (val / 16 % 16)
    ∷ hex_digit (val % 16)
    ∷ []

-- `(val % 10) + '0'` as a char, where `val` is the number or its negation.
abbrev pub digit_char : Bool → ℕ → ℕ
digit_char true val = b'0' - val % 10
digit_char false val = val % 10 + b'0'

-- The loop of `itoa` and `u32toa`: the buffer and the index `str`, which goes down. A store in front
-- of the buffer is a fault.
unfoldable pub digit_loop : Bool → ℕ → ℕ → Bytes → ℕ → Exec (Bytes × ℕ)
digit_loop negative zero val buf str = stuck
digit_loop negative (suc fuel) val buf str = if val == 0 then ok (buf, str) else elim str [
  | zero ↦ fault
  | suc s ↦ do
    buf ← write_at s (digit_char negative val ∷ []) buf
    digit_loop negative fuel (val / 10) buf s
]

-- `*--str = '0'`
abbrev put_zero : Bytes → ℕ → Exec (Bytes × ℕ)
put_zero buf zero = fault
put_zero buf (suc s) = do buf ← write_at s (b'0' ∷ []) buf; ok (buf, s)

-- What both do with the magnitude of `val`; the buffer is its `len` bytes. Each round stores a byte.
unfoldable pub put_digits : Bool → ℕ → Bytes → Exec (Bytes × ℕ)
put_digits negative val [] = ok ([], 0)
put_digits negative val (b ∷ bs) = do
  let str = length bs
  buf ← write_at str (0 ∷ []) (b ∷ bs)
  if val == 0 then put_zero buf str else digit_loop negative (suc (length bs)) val buf str

unfoldable pub itoa : ℤ → Bytes → Exec (Bytes × ℕ)
itoa (pos val) buf = put_digits false val buf
itoa (negsuc n) buf = put_digits true (suc n) buf

unfoldable pub u32toa : ℕ → Bytes → Exec (Bytes × ℕ)
u32toa val buf = put_digits false val buf

-- A static buffer of 10 bytes.
abbrev pub tostr_buf : Bytes
tostr_buf = 0 ∷ 0 ∷ 0 ∷ 0 ∷ 0 ∷ 0 ∷ 0 ∷ 0 ∷ 0 ∷ 0 ∷ []

-- The text that is returned. The next 15 calls leave it alone, since they use other buffers.
unfoldable pub int_tostr : ℤ → Exec Bytes
int_tostr val = do (buf, str) ← itoa val tostr_buf; c_string str buf

-- The size that is passed is that of one char of the buffer.
unfoldable pub u32_tostr : ℕ → Exec Bytes
u32_tostr val = do (buf, str) ← u32toa val (0 ∷ []); c_string str buf
