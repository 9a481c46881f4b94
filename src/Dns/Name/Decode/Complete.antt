-- ===== src/Dns/Name/Decode/Complete.antt =====
-- `decode_name` of src/dns_proto.c on the names that stand in a packet.
use c_dns_pkt.Prelude.{
  ℕ, zero, suc, ◌+◌, ◌-◌, ◌*◌, ◌%◌, ◌^◌, ◌≤◌, ◌<◌, ◌≡◌, ◌≢◌, refl, sym, ap, ◌∙◌, true, false, inl,
  inr, [], ◌∷◌, ◌++◌, length, bit_and, bit_or, All, All-get_elem?, ok, pos, ltb, leb, ◌==◌,
  if◌then◌else◌, get_elem?, some, arith, length-append, Bool-cases,
}
use mathlib.Core.List.{append-nil, append_assoc}
use c_dns_pkt.Prelude.Bits.{or_disjoint, is_pointer_mark, pointer_high}
use c_dns_pkt.Mem.{Bytes, IsByte, read_at, At}
use c_dns_pkt.Mem.Laws.{read_at-At}
use c_dns_pkt.Dns.{dns_comp_ptr}
use c_dns_pkt.Dns.Name.Wire.{NameAt, root, label, pointer, pointer_target, dot_text, NameAt_begins}
use c_dns_pkt.Dns.Name.Decode.{
  Decoded, named, failed, NameVars, Round, again, break, return, emit, land, jump, dot_follows,
  add_dot, copy_label, round, finish, name_loop, name_fuel, name_start, decode_name,
}
use c_dns_pkt.Dns.Name.Decode

target_value :
    (hi lo : ℕ) → hi < 256 → lo < 256 → bit_or (bit_and hi 0x3F * 2 ^ 8) lo ≡ pointer_target hi lo
target_value hi lo h l = rw (pointer_high hi h) (or_disjoint 8 (hi % 64) lo l)

get_elem?-some-lt : (xs : Bytes) (i b : ℕ) → get_elem? xs i ≡ some b → i < length xs
get_elem?-some-lt [] i b h = cc
get_elem?-some-lt (x ∷ xs) zero b h = omega arith
get_elem?-some-lt (x ∷ xs) (suc i) b h = omega (arith, get_elem?-some-lt xs i b h)

named_eq :
    {o o' : ℕ} {n n' : Bytes} {r r' : ℕ}
    → o ≡ o'
    → n ≡ n'
    → r ≡ r'
    → ok (named o n r) ≡ ok (named o' n' r')
named_eq p q r = cc

abbrev dot_of : ℕ → Bytes
dot_of next = if next == 0 then [] else b'.' ∷ []

dot_text_split : (next : ℕ) (text : Bytes) → dot_text next text ≡ dot_of next ++ text
dot_text_split next text = elim (Bool-cases (next == 0)) [ inl z ↦ rw z | inr z ↦ rw z ]

length-dot_text :
    (next : ℕ) (text : Bytes) → length (dot_text next text) ≡ length (dot_of next) + length text
length-dot_text next text = ap length (dot_text_split next text) ∙ length-append (dot_of next) text

text_eq :
    (name bytes : Bytes) (next : ℕ) (text : Bytes) {full : Bytes}
    → full ≡ bytes ++ dot_text next text
    → ((name ++ bytes) ++ dot_of next) ++ text ++ 0 ∷ [] ≡ name ++ full ++ 0 ∷ []
text_eq name bytes next text f = rw (f, dot_text_split next text) (simp append_assoc)

-- A jump costs more than the bytes that it gives back.
pub fewer_jumps :
    (n j i t : ℕ) → j ≤ 16 → (17 - (j + 1)) * (n + 1) + (n - t) < (17 - j) * (n + 1) + (n - i)
fewer_jumps n j i t h =
    let now : 17 - j ≡ suc (16 - j) = omega arith in
    let then_ : 17 - (j + 1) ≡ 16 - j = omega arith in rw (now, then_) (omega arith)

nearer :
    (n j i len fuel : ℕ)
    → i + 1 + len < n
    → (17 - j) * (n + 1) + (n - i) < suc fuel
    → (17 - j) * (n + 1) + (n - (i + 1 + len)) < fuel
nearer n j i len fuel h m = omega arith

module _ (pkt : Bytes) (nlen : ℕ) where
  root_round :
      (v : NameVars)
      → get_elem? pkt v.pkt_idx ≡ some 0
      → round pkt true nlen v
        ≡ ok (
            break (record v {
              len = pos 0;
              pkt_idx = v.pkt_idx + 1;
              offset = if v.njmp == 0 then v.offset + 1 + 0 else v.offset;
            }))
  unfolding round Decode.label
  root_round v h = rw h (ground arith)

  pointer_round :
      (v : NameVars) (hi lo : ℕ)
      → get_elem? pkt v.pkt_idx ≡ some hi
      → hi < 256
      → 192 ≤ hi
      → get_elem? pkt (v.pkt_idx + 1) ≡ some lo
      → lo < 256
      → v.njmp ≤ 16
      → 12 ≤ pointer_target hi lo
      → pointer_target hi lo ≤ length pkt
      → round pkt true nlen v
        ≡ ok (
            again (record v {
              len = pos (pointer_target hi lo);
              pkt_idx = pointer_target hi lo;
              offset = if v.njmp + 1 == 1 then v.offset + 2 else v.offset;
              njmp = v.njmp + 1;
            }))
  unfolding round jump land
  pointer_round v hi lo h hb m l lb j t u =
      let inside : v.pkt_idx + 1 < length pkt = get_elem?-some-lt pkt _ lo l in
      rw (h, is_pointer_mark hi hb, l, target_value hi lo hb lb) (ground arith)

  -- The variables behind a label: the copy, and the dot if the byte `next` is not zero.
  abbrev past_label : NameVars → ℕ → Bytes → ℕ → NameVars
  past_label v len bytes next = record v {
    len = pos len;
    pkt_idx = v.pkt_idx + 1 + len;
    offset = if v.njmp == 0 then v.offset + 1 + len else v.offset;
    out_len = v.out_len - len - length (dot_of next);
    name = (v.name ++ bytes) ++ dot_of next;
  }

  dot_round :
      (w : NameVars) (next : ℕ)
      → get_elem? pkt w.pkt_idx ≡ some next
      → length w.name + w.out_len ≡ nlen
      → w.out_len ≢ 0
      → add_dot pkt true nlen w
        ≡ ok (
            again (record w {
              out_len = w.out_len - length (dot_of next);
              name = w.name ++ dot_of next;
            }))
  unfolding add_dot dot_follows emit
  dot_round w next h r o =
      let inside : w.pkt_idx < length pkt = get_elem?-some-lt pkt _ next h in
      elim (Bool-cases (next == 0)) [
        | inl z ↦ rw (h, z) (ground arith)
        | inr z ↦ rw (h, z) (ground arith)
      ]

  label_round :
      (v : NameVars) (len next : ℕ) (bytes : Bytes)
      → get_elem? pkt v.pkt_idx ≡ some len
      → 0 < len
      → len < 192
      → length bytes ≡ len
      → At pkt (v.pkt_idx + 1) bytes
      → get_elem? pkt (v.pkt_idx + 1 + len) ≡ some next
      → length v.name + v.out_len ≡ nlen
      → len < v.out_len
      → round pkt true nlen v ≡ ok (again (past_label v len bytes next))
  unfolding round Decode.label copy_label emit
  label_round v len next bytes h p m n a k r o =
      let inside : v.pkt_idx + 1 + len < length pkt = get_elem?-some-lt pkt _ next k in
      let copy : read_at (v.pkt_idx + 1) len pkt ≡ ok bytes =
        rw n at (read_at-At pkt (v.pkt_idx + 1) bytes (omega arith) a) in
      let not_pointer : (bit_and len dns_comp_ptr == dns_comp_ptr) ≡ false =
        is_pointer_mark len (omega arith) ∙ ground arith in
      let in_packet : ltb (length pkt - (v.pkt_idx + 1)) len ≡ false = ground arith in
      let fits : ltb v.out_len len ≡ false = ground arith in
      let not_root : (len == 0) ≡ false = ground arith in
      let room : leb (length v.name + length bytes) nlen ≡ true = ground arith in
      rw (h, not_pointer, in_packet, fits, not_root, copy, room)
        (dot_round _ next k (omega (arith, length-append v.name bytes)) (omega arith))

  name_inside :
      {p q after jumps : ℕ} {text : Bytes}
      → NameAt (get_elem? pkt) q after jumps text
      → p ≡ q
      → p ≤ length pkt
  name_inside {p} {q} n e =
      let (b, h) = NameAt_begins n in omega (arith, get_elem?-some-lt pkt q b h)

  loop_again :
      (fuel : ℕ) (v w : NameVars)
      → v.pkt_idx < length pkt
      → round pkt true nlen v ≡ ok (again w)
      → name_loop pkt true nlen (suc fuel) v ≡ name_loop pkt true nlen fuel w
  unfolding name_loop
  loop_again fuel v w h e = let t : ltb v.pkt_idx (length pkt) ≡ true = ground arith in rw (t, e)

  loop_break :
      (fuel : ℕ) (v w : NameVars)
      → v.pkt_idx < length pkt
      → round pkt true nlen v ≡ ok (break w)
      → name_loop pkt true nlen (suc fuel) v ≡ finish pkt true nlen w
  unfolding name_loop
  loop_break fuel v w h e = let t : ltb v.pkt_idx (length pkt) ≡ true = ground arith in rw (t, e)

  finish_root :
      (v : NameVars) (i offset : ℕ)
      → length v.name + v.out_len ≡ nlen
      → 0 < v.out_len
      → finish pkt true nlen (record v { len = pos 0; pkt_idx = i; offset = offset })
        ≡ ok (named offset (v.name ++ 0 ∷ []) (length v.name + 1))
  unfolding finish emit
  finish_root v i offset r o = ground (arith, length-append v.name (0 ∷ []))

  -- With room for the text and its zero byte, and with the jumps that are left, the loop reads the
  -- name that stands at `pkt_idx`.
  loop-NameAt :
      (fuel : ℕ) (v : NameVars) {p after jumps : ℕ} {text : Bytes}
      → NameAt (get_elem? pkt) p after jumps text
      → All IsByte pkt
      → v.pkt_idx ≡ p
      → length v.name + v.out_len ≡ nlen
      → length text < v.out_len
      → v.njmp + jumps ≤ 17
      → (v.njmp ≡ 0 → v.offset ≡ v.pkt_idx)
      → (17 - v.njmp) * (length pkt + 1) + (length pkt - v.pkt_idx) < fuel
      → name_loop pkt true nlen fuel v
        ≡ ok (
            named
              (if v.njmp == 0 then after else v.offset)
              (v.name ++ text ++ 0 ∷ [])
              (length v.name + length text + 1))
  loop-NameAt zero v n b e r o j t m = absurd (omega arith)
  loop-NameAt (suc fuel) v (root h a) b e r o j t m =
      let here : get_elem? pkt v.pkt_idx ≡ some 0 = rw e h in
      loop_break fuel v _ (get_elem?-some-lt pkt _ 0 here) (root_round v here)
      ∙ finish_root v _ _ r o
      ∙ named_eq (ground arith) (rw append-nil) (omega arith)
  loop-NameAt (suc fuel) v (label {len} {next} {text} bytes h l u n k q x y f) b e r o j t m =
      let here : get_elem? pkt v.pkt_idx ≡ some len = rw e h in
      let below : At pkt (v.pkt_idx + 1) bytes = rw e k in
      let behind : get_elem? pkt (v.pkt_idx + 1 + len) ≡ some next = rw (e, ← q) x in
      let size = ap length f ∙ length-append bytes (dot_text next text) in
      let dotted = length-dot_text next text in
      let copied = length-append (v.name ++ bytes) (dot_of next) in
      let copied' = length-append v.name bytes in
      let w = past_label v len bytes next in
      loop_again fuel v w (get_elem?-some-lt pkt _ len here)
        (label_round v len next bytes here l u n below behind r (omega arith))
      ∙ loop-NameAt fuel w y b (omega arith) (omega arith) (omega arith) j (ground arith)
          (nearer (length pkt) v.njmp v.pkt_idx len fuel (get_elem?-some-lt pkt _ next behind) m)
      ∙ named_eq (ground arith) (text_eq v.name bytes next text f) (omega arith)
  loop-NameAt (suc fuel) v (pointer {hi} {lo} h l k q c n a) b e r o j t m =
      let here : get_elem? pkt v.pkt_idx ≡ some hi = rw e h in
      let low : get_elem? pkt (v.pkt_idx + 1) ≡ some lo = rw e k in
      let w = record v {
        len = pos (pointer_target hi lo);
        pkt_idx = pointer_target hi lo;
        offset = if v.njmp + 1 == 1 then v.offset + 2 else v.offset;
        njmp = v.njmp + 1;
      } in
      loop_again fuel v w (get_elem?-some-lt pkt _ hi here) (
        pointer_round v hi lo here (All-get_elem? IsByte pkt _ hi b here) l low
          (All-get_elem? IsByte pkt _ lo b low) (omega arith) (omega arith) (name_inside n (sym q)))
      ∙ loop-NameAt fuel w n b (sym q) r o (omega arith) (ground arith) (
          omega
            (arith, fewer_jumps (length pkt) v.njmp v.pkt_idx (pointer_target hi lo) (omega arith)))
      ∙ named_eq (ground arith) refl refl

  -- A name that stands at the offset, that goes through 17 pointers at most, and whose text fits the
  -- buffer with its zero byte, is read: the buffer gets the text, and the offset goes behind the
  -- name's own bytes.
  pub decode_name-NameAt :
      {offset after jumps : ℕ} {text : Bytes}
      → All IsByte pkt
      → NameAt (get_elem? pkt) offset after jumps text
      → jumps ≤ 17
      → length text < nlen
      → decode_name pkt true nlen offset ≡ ok (named after (text ++ 0 ∷ []) (length text + 1))
  unfolding decode_name
  decode_name-NameAt {offset} b n j h =
      loop-NameAt (name_fuel pkt true nlen) (name_start pkt true nlen offset) n b refl (omega arith)
        h (omega arith) (λ _. refl) (omega arith)
      ∙ named_eq refl refl (omega arith)
