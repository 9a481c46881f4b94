-- ===== src/Ip4/RoundTrip.antt =====
-- `ip4_str_encode` against `ip4_str_decode`, both of src/str_util.c.
use c_dns_pkt.Prelude.{
  ℕ, ◌+◌, ◌-◌, ◌*◌, ◌/◌, ◌%◌, ◌^◌, ◌≤◌, ◌<◌, ◌≡◌, refl, ap, sym, ◌∙◌, true, false, [], ◌∷◌, ◌++◌,
  length, length-append, take, get_elem?, some, ok, ltb, leb, ◌==◌, arith, Bool-cases, inl, inr,
}
use mathlib.Core.List.{append-nil}
use c_dns_pkt.Mem.{Bytes, At, splice}
use c_dns_pkt.Mem.Laws.{write_at_lem, At-splice, take-drop-At}
use c_dns_pkt.Slice.{is_numeral}
use c_dns_pkt.Ip4.{
  uint8_toa, two_digits, three_digits, ip4_text, ip4_str_encode, Ip4Vars, ip4_loop, ip4_str_decode,
}

-- A digit that keeps the number below 256 is taken.
digit_step :
    (d : ℕ) (str : Bytes) (v : Ip4Vars)
    → d < 10
    → v.num_digit < 3
    → v.acc * 10 + d < 256
    → ip4_loop ((d + b'0') ∷ str) v
      ≡ ip4_loop str
          (record v { pos = v.pos + 1; num_digit = v.num_digit + 1; acc = v.acc * 10 + d })
unfolding ip4_loop
digit_step d str v lt few low =
    let numeral : is_numeral (d + b'0') ≡ true = ground arith in
    let room : ltb 3 (v.num_digit + 1) ≡ false = ground arith in
    let value : (v.acc * 2 ^ 3 + v.acc * 2 + (d + b'0' - b'0')) % 2 ^ 32 ≡ v.acc * 10 + d =
      omega arith in
    let byte : ltb 255 (v.acc * 10 + d) ≡ false = ground arith in
    rw (numeral, room, value, byte) refl

abbrev vars : (pos : ℕ) (dst : Bytes) (num_digit num_dot acc : ℕ) → Ip4Vars
vars pos dst num_digit num_dot acc = record {
  pos = pos;
  dst = dst;
  num_digit = num_digit;
  num_dot = num_dot;
  acc = acc;
}

same_vars :
    (str dst : Bytes) (p q m n dots x y : ℕ)
    → p ≡ q
    → m ≡ n
    → x ≡ y
    → ip4_loop str (vars p dst m dots x) ≡ ip4_loop str (vars q dst n dots y)
same_vars str dst p q m n dots x y e f g = rw (e, f, g) refl

module _ (a : ℕ) (rest dst : Bytes) (pos dots : ℕ) where
  two_step :
      a < 100
      → ip4_loop (two_digits a ++ rest) (vars pos dst 0 dots 0)
        ≡ ip4_loop rest (vars (pos + 2) dst 2 dots a)
  two_step lt =
      let d1 = a * 205 / 2 ^ 11 % 256 in
      let d2 = (a - d1 * 10) % 256 in
      let one : d1 < 10 = omega arith in
      let two : d2 < 10 = omega arith in
      let sum : d1 * 10 + d2 ≡ a = omega arith in
      digit_step d1 ((d2 + b'0') ∷ rest) (vars pos dst 0 dots 0) one (omega arith) (omega arith)
      ∙ digit_step d2 rest (vars (pos + 1) dst (0 + 1) dots (0 * 10 + d1)) two (omega arith)
          (omega arith)
      ∙ same_vars rest dst _ _ _ _ dots _ _ (omega arith) (omega arith) (omega arith)

  three_step :
      a < 256
      → ip4_loop (three_digits a ++ rest) (vars pos dst 0 dots 0)
        ≡ ip4_loop rest (vars (pos + 3) dst 3 dots a)
  three_step lt =
      let d1 = a * 164 / 2 ^ 14 % 256 in
      let rem = (a - d1 * 100) % 256 in
      let d2 = rem * 205 / 2 ^ 11 % 256 in
      let d3 = (rem - d2 * 10) % 256 in
      let one : d1 < 3 = omega arith in
      let left : rem < 100 = omega arith in
      let whole : d1 * 100 + rem ≡ a = omega arith in
      let two : d2 < 10 = omega arith in
      let three : d3 < 10 = omega arith in
      let part : d2 * 10 + d3 ≡ rem = omega arith in
      digit_step d1 ((d2 + b'0') ∷ (d3 + b'0') ∷ rest) (vars pos dst 0 dots 0) (omega (arith, one))
        (omega arith) (omega (arith, one))
      ∙ digit_step d2 ((d3 + b'0') ∷ rest) (vars (pos + 1) dst (0 + 1) dots (0 * 10 + d1)) two
          (omega arith) (omega (arith, one, two))
      ∙ digit_step d3 rest (vars (pos + 1 + 1) dst (0 + 1 + 1) dots ((0 * 10 + d1) * 10 + d2)) three
          (omega arith) (omega (arith, one, two, three, whole, part))
      ∙ same_vars rest dst _ _ _ _ dots _ _ (omega arith) (omega arith) (omega (arith, whole, part))

  -- The printed byte is read as a number, at the beginning of a part of the address.
  octet_step :
      a < 256
      → ip4_loop (uint8_toa a ++ rest) (vars pos dst 0 dots 0)
        ≡ ip4_loop rest (vars (pos + length (uint8_toa a)) dst (length (uint8_toa a)) dots a)
  unfolding uint8_toa
  octet_step lt = elim (Bool-cases (ltb a 10)) [
    | inl e ↦ rw e (
        digit_step a rest (vars pos dst 0 dots 0) (ground arith) (omega arith) (omega arith)
        ∙ same_vars rest dst _ _ _ _ dots _ _ refl (omega arith) (omega arith))
    | inr e ↦ elim (Bool-cases (ltb a 100)) [
      | inl f ↦ rw (e, f) (two_step (ground arith))
      | inr f ↦ rw (e, f) (three_step lt)
    ]
  ]

-- The dot behind a part stores it.
dot_step :
    (rest dst : Bytes) (pos n dots acc : ℕ)
    → 0 < n
    → dots < 3
    → acc < 256
    → ip4_loop (b'.' ∷ rest) (vars pos dst n dots acc)
      ≡ ip4_loop rest (vars (pos + 1) (dst ++ acc ∷ []) 0 (dots + 1) 0)
unfolding ip4_loop
dot_step rest dst pos n dots acc some_digit few byte =
    let digits : (n == 0) ≡ false = ground arith in
    let room : leb 3 dots ≡ false = ground arith in
    let whole : acc % 2 ^ 8 ≡ acc = omega arith in rw (digits, room, whole) refl

length-uint8_toa : (a : ℕ) → (0 < length (uint8_toa a)) × (length (uint8_toa a) ≤ 3)
unfolding uint8_toa
length-uint8_toa a = elim (Bool-cases (ltb a 10)) [
  | inl e ↦ rw e (omega arith, omega arith)
  | inr e ↦ elim (Bool-cases (ltb a 100)) [
    | inl f ↦ rw (e, f) (omega arith, omega arith)
    | inr f ↦ rw (e, f) (omega arith, omega arith)
  ]
]

-- A part with the dot behind it.
part_step :
    (a : ℕ) (rest dst : Bytes) (pos dots : ℕ)
    → a < 256
    → dots < 3
    → ip4_loop (uint8_toa a ++ b'.' ∷ rest) (vars pos dst 0 dots 0)
      ≡ ip4_loop rest (vars (pos + length (uint8_toa a) + 1) (dst ++ a ∷ []) 0 (dots + 1) 0)
part_step a rest dst pos dots lt few =
    octet_step a (b'.' ∷ rest) dst pos dots lt
    ∙ dot_step rest dst _ _ dots a (length-uint8_toa a).0 few lt

last_step :
    (d : ℕ) (dst : Bytes) (pos : ℕ)
    → d < 256
    → ip4_loop (uint8_toa d) (vars pos dst 0 3 0) ≡ (dst ++ d ∷ [], pos + length (uint8_toa d))
unfolding ip4_loop
last_step d dst pos lt =
    let digits : (length (uint8_toa d) == 0) ≡ false = ground (arith, (length-uint8_toa d).0) in
    let whole : d % 2 ^ 8 ≡ d = omega arith in
    ap (λ (s : Bytes). ip4_loop s (vars pos dst 0 3 0)) (sym (append-nil (uint8_toa d)))
    ∙ octet_step d [] dst pos 3 lt
    ∙ rw (digits, whole) refl

length-ip4_text :
    (a b c d : ℕ)
    → length (ip4_text a b c d)
      ≡ length (uint8_toa a)
        + 1
        + length (uint8_toa b)
        + 1
        + length (uint8_toa c)
        + 1
        + length (uint8_toa d)
length-ip4_text a b c d =
    let tail = uint8_toa c ++ b'.' ∷ uint8_toa d in
    omega (
      arith,
      length-append (uint8_toa a) (b'.' ∷ (uint8_toa b ++ b'.' ∷ tail)),
      length-append (uint8_toa b) (b'.' ∷ tail),
      length-append (uint8_toa c) (b'.' ∷ uint8_toa d),
    )

with_length : (dst : Bytes) (m n : ℕ) → m ≡ n → ◌≡◌ {A = Bytes × ℕ} (dst, m) (dst, n)
with_length dst m n e = rw e refl

decode_text :
    (a b c d : ℕ)
    → a < 256
    → b < 256
    → c < 256
    → d < 256
    → ip4_str_decode (ip4_text a b c d) ≡ (a ∷ b ∷ c ∷ d ∷ [], length (ip4_text a b c d))
unfolding ip4_str_decode
decode_text a b c d ha hb hc hd =
    part_step a _ [] 0 0 ha (omega arith)
    ∙ part_step b _ (a ∷ []) _ 1 hb (omega arith)
    ∙ part_step c _ (a ∷ b ∷ []) _ 2 hc (omega arith)
    ∙ last_step d (a ∷ b ∷ c ∷ []) _ hd
    ∙ with_length (a ∷ b ∷ c ∷ d ∷ []) _ _ (omega (arith, length-ip4_text a b c d))

At-front : (buf : Bytes) (i : ℕ) (xs ys : Bytes) → At buf i (xs ++ ys) → At buf i xs
At-front buf i [] ys h = tt
At-front buf i (x ∷ xs) ys (h, t) = (h, At-front buf (i + 1) xs ys t)

At-last :
    (buf : Bytes) (i : ℕ) (xs : Bytes) (b : ℕ)
    → At buf i (xs ++ b ∷ [])
    → get_elem? buf (i + length xs) ≡ some b
At-last buf i [] b (h, t) = ap (get_elem? buf) (omega arith) ∙ h
At-last buf i (x ∷ xs) b (h, t) = ap (get_elem? buf) (omega arith) ∙ At-last buf (i + 1) xs b t

-- Any address is printed into a buffer of at least 16 bytes, as 7 characters at least and 15 at most
-- with a zero byte behind them, and `ip4_str_decode` reads those characters back as its four bytes, to
-- the last one.
pub ip4_str_decode-ip4_str_encode :
    (a b c d : ℕ) (str : Bytes) (len : ℕ)
    → a < 256
    → b < 256
    → c < 256
    → d < 256
    → 16 ≤ len
    → len ≤ length str
    → (str' : Bytes) × (n : ℕ) × (ip4_str_encode a b c d str len ≡ ok (str', n))
      × (7 ≤ n)
      × (n ≤ 15)
      × (get_elem? str' n ≡ some 0)
      × (ip4_str_decode (take n str') ≡ (a ∷ b ∷ c ∷ d ∷ [], n))
unfolding ip4_str_encode
ip4_str_decode-ip4_str_encode a b c d str len ha hb hc hd long holds =
    let text = ip4_text a b c d in
    let size = length-ip4_text a b c d in
    let (a0, a1) = length-uint8_toa a in
    let (b0, b1) = length-uint8_toa b in
    let (c0, c1) = length-uint8_toa c in
    let (d0, d1) = length-uint8_toa d in
    let room : ltb len 16 ≡ false = ground arith in
    let whole = length-append text (0 ∷ []) in
    let fits : 0 + length (text ++ 0 ∷ []) ≤ length str = omega arith in
    let there = At-splice 0 (text ++ 0 ∷ []) str fits in
    let read = take-drop-At _ 0 text (At-front _ 0 text (0 ∷ []) there) in
    (
      splice 0 (text ++ 0 ∷ []) str,
      length text,
      rw (room, write_at_lem 0 (text ++ 0 ∷ []) str fits) refl,
      omega arith,
      omega arith,
      ap (get_elem? (splice 0 (text ++ 0 ∷ []) str)) (omega arith) ∙ At-last _ 0 text 0 there,
      rw read (decode_text a b c d ha hb hc hd),
    )
