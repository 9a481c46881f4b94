-- ===== src/Ip4.antt =====
-- IPv4 addresses as text: `uint8_toa` of src/str_util.h, and `ip4_str_decode` and `ip4_str_encode` of
-- src/str_util.c.
pub mod RoundTrip
use c_dns_pkt.Prelude.{
  ℕ, ◌+◌, ◌-◌, ◌*◌, ◌/◌, ◌%◌, ◌^◌, Bool, ◌||◌, not, [], ◌∷◌, ◌++◌, length, Exec, ok, ◌>>=◌, ltb,
  leb, ◌==◌, if◌then◌else◌,
}
use c_dns_pkt.Mem.{Bytes, write_at}
use c_dns_pkt.Slice.{is_numeral}

-- The characters that are stored. The locals are uint8_t.
abbrev pub two_digits : ℕ → Bytes
two_digits val =
    let d1 = val * 205 / 2 ^ 11 % 256 in
    let d2 = (val - d1 * 10) % 256 in (d1 + b'0') ∷ (d2 + b'0') ∷ []

abbrev pub three_digits : ℕ → Bytes
three_digits val =
    let d1 = val * 164 / 2 ^ 14 % 256 in
    let rem = (val - d1 * 100) % 256 in
    let d2 = rem * 205 / 2 ^ 11 % 256 in
    let d3 = (rem - d2 * 10) % 256 in (d1 + b'0') ∷ (d2 + b'0') ∷ (d3 + b'0') ∷ []

unfoldable pub uint8_toa : ℕ → Bytes
uint8_toa val =
    if ltb val 10
    then (val + b'0') ∷ []
    else if ltb val 100
    then two_digits val
    else three_digits val

abbrev pub ip4_addr_strlen : ℕ
ip4_addr_strlen = 16

-- The text of four bytes, without the zero byte behind it.
abbrev pub ip4_text : (a b c d : ℕ) → Bytes
ip4_text a b c d = uint8_toa a ++ b'.' ∷ (uint8_toa b ++ b'.' ∷ (uint8_toa c ++ b'.' ∷ uint8_toa d))

-- The buffer after the call, and what is returned. The address is its four bytes.
unfoldable pub ip4_str_encode : (a b c d : ℕ) → Bytes → ℕ → Exec (Bytes × ℕ)
ip4_str_encode a b c d str len =
    if ltb len ip4_addr_strlen
    then ok (str, 0)
    else (do str ← write_at 0 (ip4_text a b c d ++ 0 ∷ []) str; ok (str, length (ip4_text a b c d)))

-- The variables of the loop; `pos` is `str_ptr - str`, and `dst` the bytes stored so far.
pub record Ip4Vars : Type 0 where
  pub pos : ℕ
  pub dst : Bytes
  pub num_digit : ℕ
  pub num_dot : ℕ
  pub acc : ℕ

-- What stands behind the loop: the bytes stored, and what is returned.
abbrev pub ip4_finish : Ip4Vars → Bytes × ℕ
ip4_finish v =
    if not (v.num_dot == 3) || v.num_digit == 0
    then (v.dst, 0)
    else (v.dst ++ (v.acc % 2 ^ 8) ∷ [], v.pos)

-- The value of -1 as a size_t is returned for a fourth digit.
unfoldable pub ip4_loop : Bytes → Ip4Vars → Bytes × ℕ
ip4_loop [] v = ip4_finish v
ip4_loop (ch ∷ str) v =
    let acc = (v.acc * 2 ^ 3 + v.acc * 2 + (ch - b'0')) % 2 ^ 32 in
    let digit =
      ip4_loop str (record v { pos = v.pos + 1; num_digit = v.num_digit + 1; acc = acc }) in
    let dot = ip4_loop str (record {
      pos = v.pos + 1;
      dst = v.dst ++ (v.acc % 2 ^ 8) ∷ [];
      num_digit = 0;
      num_dot = v.num_dot + 1;
      acc = 0;
    }) in
    if is_numeral ch
    then (if ltb 3 (v.num_digit + 1)
        then (v.dst, 2 ^ 64 - 1)
        else if ltb 255 acc
        then (v.dst, 0)
        else digit)
    else if ch == b'.'
    then (if v.num_digit == 0 || leb 3 v.num_dot then (v.dst, 0) else dot)
    else ip4_finish (record v { pos = v.pos + 1 })

unfoldable pub ip4_str_decode : Bytes → Bytes × ℕ
ip4_str_decode str =
    ip4_loop str (record { pos = 0; dst = []; num_digit = 0; num_dot = 0; acc = 0 })
