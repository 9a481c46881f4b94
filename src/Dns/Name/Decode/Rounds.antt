-- ===== src/Dns/Name/Decode/Rounds.antt =====
-- One round of the loop of `decode_name` of src/dns_proto.c, its invariant and its measure.
use c_dns_pkt.Prelude.{
  ℕ, suc, ◌+◌, ◌-◌, ◌*◌, ◌^◌, ◌≤◌, ◌<◌, ◌≡◌, ◌≢◌, refl, Bool, true, false, inl, inr, [], ◌∷◌, ◌++◌,
  length, bit_and, bit_or, Exec, ok, fault, stuck, ℤ, pos, ltb, ◌==◌, if◌then◌else◌, not, arith,
  get_elem?, some, get_elem?-lt, length-append, Bool-cases, ==_iff,
}
use native.Mathlib.Nat.{sub-zero}
use c_dns_pkt.Mem.{Bytes}
use c_dns_pkt.Mem.Laws.{length-read_at}
use c_dns_pkt.Dns.{dns_max_jmp, dns_comp_ptr}
use c_dns_pkt.Dns.Name.Decode.{
  named, failed, NameVars, Round, again, break, return, emit, land, jump, dot_follows, add_dot,
  copy_label, label, round,
}

-- `out_len` counts what is left of the output buffer.
abbrev pub Room : Bool → ℕ → Bytes → ℕ → Type 0
Room true nlen name out_len = length name + out_len ≡ nlen
Room false nlen name out_len = out_len ≤ nlen

-- A copy that fits what is left of the buffer is made.
pub emit_total :
    (pkt : Bytes) (store : Bool) (nlen : ℕ) (name : Bytes) (out_len : ℕ) (bs : Bytes)
    → Room store nlen name out_len
    → length bs ≤ out_len
    → (name' : Bytes) × (emit pkt store nlen name bs ≡ ok name')
      × Room store nlen name' (out_len - length bs)
unfolding emit
emit_total pkt true nlen name out_len bs r h =
    (name ++ bs, ground arith, omega (arith, length-append name bs))
emit_total pkt false nlen name out_len bs r h = (name, refl, omega arith)

pub start-Room : (store : Bool) (nlen : ℕ) → Room store nlen [] nlen
start-Room true nlen = omega arith
start-Room false nlen = omega arith

pub suc_ne : (n : ℕ) → (suc n == 0) ≡ false
suc_ne n = ground arith

-- What was stored fits the output buffer.
abbrev pub Within : Bool → ℕ → Bytes → Type 0
Within true nlen name = length name ≤ nlen
Within false nlen name = Unit {0}

pub Room-Within :
    (store : Bool) (nlen : ℕ) (name : Bytes) (out_len : ℕ)
    → Room store nlen name out_len
    → Within store nlen name
Room-Within true nlen name out_len r = omega arith
Room-Within false nlen name out_len r = tt

-- A name that is stored has as many bytes as the count says, and a zero byte is one of them.
abbrev pub Counted : Bool → ℕ → Bytes → Type 0
Counted true rc name = (0 < rc) × (length name ≡ rc) × ((k : ℕ) × (get_elem? name k ≡ some 0))
Counted false rc name = Unit {0}

pub counted :
    (store : Bool) (nlen : ℕ) (before name : Bytes) (out_len : ℕ)
    → out_len ≢ 0
    → Room store nlen before out_len
    → Room store nlen name (out_len - 1)
    → ((store ≡ true) → (k : ℕ) × (get_elem? name k ≡ some 0))
    → Counted store (nlen - (if store then out_len - 1 else out_len)) name
counted true nlen before name out_len h r q z = (omega arith, omega arith, z refl)
counted false nlen before name out_len h r q z = tt

module _ (pkt : Bytes) (store : Bool) (nlen : ℕ) where
  -- The loop invariant. Before the first jump `dec->offset` goes along with `pkt_idx`.
  pub record IsSafe (v : NameVars) : Type 0 where
    pub idx : v.pkt_idx ≤ length pkt
    pub jumps : v.njmp ≤ 17
    pub offset_le : v.offset ≤ length pkt
    pub together : v.njmp ≡ 0 → v.offset ≡ v.pkt_idx
    pub room : Room store nlen v.name v.out_len

  abbrev pub measure : NameVars → ℕ
  measure v = (17 - v.njmp) * (length pkt + 1) + (length pkt - v.pkt_idx)

  -- What one round of the loop from `v` may do.
  abbrev pub RoundSafe : NameVars → Exec Round → Type 0
  RoundSafe v (ok (again w)) = IsSafe w × (measure w < measure v)
  RoundSafe v (ok (break w)) = IsSafe w
  RoundSafe v (ok (return (failed offset ec name))) =
      (offset ≤ length pkt) × (0 < ec) × Within store nlen name
  RoundSafe v (ok (return (named offset name rc))) = ⊥
  RoundSafe v fault = ⊥
  RoundSafe v stuck = ⊥

  fits : (v : NameVars) → IsSafe v → Within store nlen v.name
  fits v s = Room-Within store nlen v.name v.out_len s.room

  fewer_jumps :
      (j i t : ℕ)
      → j ≤ 16
      → (17 - (j + 1)) * (length pkt + 1) + (length pkt - t)
        < (17 - j) * (length pkt + 1) + (length pkt - i)
  fewer_jumps j i t h =
      let now : 17 - j ≡ suc (16 - j) = omega arith in
      let then_ : 17 - (j + 1) ≡ 16 - j = omega arith in rw (now, then_) (omega arith)

  land_safe :
      (v : NameVars) (target i offset : ℕ)
      → IsSafe v
      → v.njmp ≤ 16
      → offset ≤ length pkt
      → RoundSafe v (
          land pkt store nlen (record v { pkt_idx = i; njmp = v.njmp + 1; offset = offset }) target)
  unfolding land
  land_safe v target i offset s h ho =
      let fits = Room-Within store nlen v.name v.out_len s.room in
      ground (arith, fewer_jumps v.njmp v.pkt_idx target h)

  jump_safe :
      (v : NameVars) (len : ℕ)
      → IsSafe v
      → v.pkt_idx < length pkt
      → RoundSafe v (jump pkt store nlen (record v { pkt_idx = v.pkt_idx + 1 }) len)
  unfolding jump
  jump_safe v len s h = elim (Bool-cases (v.pkt_idx + 1 == length pkt)) [
    | inl e ↦ rw e (ground arith, omega arith, fits v s)
    | inr e ↦ elim (Bool-cases (ltb dns_max_jmp v.njmp)) [
      | inl g ↦ rw (e, g) (ground arith, omega arith, fits v s)
      | inr g ↦
          let (low, r) = get_elem?-lt pkt (v.pkt_idx + 1) (ground arith) in
          rw (e, g, r)
            (land_safe v (bit_or (bit_and len 0x3F * 2 ^ 8) low) (v.pkt_idx + 1) _ s (ground arith)
              (ground arith))
    ]
  ]

  dot_follows_total : (i : ℕ) → (b : Bool) × (dot_follows pkt store nlen i ≡ ok b)
  unfolding dot_follows
  dot_follows_total i = elim (Bool-cases (ltb i (length pkt))) [
    | inl e ↦ let (b, r) = get_elem?-lt pkt i (ground arith) in (not (b == 0), rw (e, r))
    | inr e ↦ (false, rw e)
  ]

  keep-Room :
      (w : NameVars) (len : ℤ) (name : Bytes) (out_len : ℕ)
      → IsSafe w
      → Room store nlen name out_len
      → IsSafe (record w { len = len; name = name; out_len = out_len })
  keep-Room w len name out_len s r = record {
    idx = s.idx;
    jumps = s.jumps;
    offset_le = s.offset_le;
    together = s.together;
    room = r;
  }

  -- A dot fits where the output buffer is not full. The round began at `v`.
  put_dot_safe :
      (v w : NameVars) (dotted : Bool)
      → dot_follows pkt store nlen w.pkt_idx ≡ ok dotted
      → (w.out_len == 0) ≡ false
      → IsSafe w
      → measure w < measure v
      → RoundSafe v (add_dot pkt store nlen w)
  unfolding add_dot
  put_dot_safe v w true r e s m =
      let (name, q, room) =
        emit_total pkt store nlen w.name w.out_len (b'.' ∷ []) s.room (ground arith) in
      rw (e, r, q) (keep-Room w w.len name _ s room, m)
  put_dot_safe v w false r e s m =
      let (name, q, room) = emit_total pkt store nlen w.name w.out_len [] s.room (omega arith) in
      rw (e, r, q) (keep-Room w w.len name w.out_len s (rw sub-zero at room), m)

  add_dot_safe :
      (v w : NameVars) → IsSafe w → measure w < measure v → RoundSafe v (add_dot pkt store nlen w)
  add_dot_safe v w s m = elim (Bool-cases (w.out_len == 0)) [
    | inl e ↦ unfold add_dot in rw e (s.offset_le, omega arith, fits w s)
    | inr e ↦ let (dotted, r) = dot_follows_total w.pkt_idx in put_dot_safe v w dotted r e s m
  ]

  -- `w.pkt_idx` is still in front of the label.
  copy_label_safe :
      (v w : NameVars) (len : ℕ)
      → IsSafe (record w { pkt_idx = w.pkt_idx + len })
      → len ≤ w.out_len
      → measure (record w { pkt_idx = w.pkt_idx + len }) < measure v
      → RoundSafe v (copy_label pkt store nlen w len)
  unfolding copy_label
  copy_label_safe v w len s h m =
      let (bytes, r, n) = length-read_at w.pkt_idx len pkt s.idx in
      let (name, q, room) = emit_total pkt store nlen w.name w.out_len bytes s.room (omega arith) in
      rw (r, q)
        (add_dot_safe v _
          (keep-Room (record w { pkt_idx = w.pkt_idx + len }) (pos len) name _ s (rw n at room)) m)

  label_safe :
      (v : NameVars) (len : ℕ)
      → IsSafe v
      → v.pkt_idx < length pkt
      → RoundSafe v (label pkt store nlen (record v { pkt_idx = v.pkt_idx + 1 }) len)
  unfolding label
  label_safe v len s h = elim (Bool-cases (ltb (length pkt - (v.pkt_idx + 1)) len)) [
    | inl a ↦ rw a (s.offset_le, omega arith, fits v s)
    | inr a ↦ elim (Bool-cases (ltb v.out_len len)) [
      | inl b ↦ rw (a, b) (s.offset_le, omega arith, fits v s)
      | inr b ↦ elim (Bool-cases (len == 0)) [
        | inl c ↦
            rw (a, b, c)
              (passed (pos len) (v.pkt_idx + 1) (omega (arith, (==_iff len 0).0 c)) (ground arith))
        | inr c ↦
            rw (a, b, c)
              (copy_label_safe v _ len (passed v.len (v.pkt_idx + 1 + len) refl (ground arith))
                (ground arith) (nearer (ground arith) (ground arith)))
      ]
    ]
  ]
    where
      passed :
          (l : ℤ) (i : ℕ)
          → i ≡ v.pkt_idx + 1 + len
          → i ≤ length pkt
          → IsSafe (record v {
            len = l;
            pkt_idx = i;
            offset = if v.njmp == 0 then v.offset + 1 + len else v.offset;
          })
      passed l i e le = record {
        idx = le;
        jumps = s.jumps;
        offset_le = ground arith;
        together = ground arith;
        room = s.room;
      }

      nearer :
          0 < len
          → v.pkt_idx + 1 + len ≤ length pkt
          → (17 - v.njmp) * (length pkt + 1) + (length pkt - (v.pkt_idx + 1 + len)) < measure v
      nearer p le = omega arith

  pub round_safe :
      (v : NameVars) → IsSafe v → v.pkt_idx < length pkt → RoundSafe v (round pkt store nlen v)
  unfolding round
  round_safe v s h =
      let (len, r) = get_elem?-lt pkt v.pkt_idx h in
      elim (Bool-cases (bit_and len dns_comp_ptr == dns_comp_ptr)) [
        | inl e ↦ rw (r, e) (jump_safe v len s h)
        | inr e ↦ rw (r, e) (label_safe v len s h)
      ]
