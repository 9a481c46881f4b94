-- ===== src/Dns/Name/Encode/Labels.antt =====
-- The rounds of `encode_name` of src/dns_proto.c that write a label.
use c_dns_pkt.Prelude.{
  ℕ, suc, ◌+◌, ◌%◌, ◌^◌, ◌≤◌, ◌<◌, ◌≡◌, ◌≢◌, ◌⊎◌, refl, ap, ◌∙◌, true, false, List, [], ◌∷◌, ◌++◌,
  length, All, All-map, All-append, take, Option, none, ltb, ◌==◌, arith, Bool-cases, inl, inr,
  length-append,
}
use mathlib.Core.List.{append-nil, append_assoc}
use c_dns_pkt.Mem.{Bytes, or_empty, splice}
use c_dns_pkt.Mem.Laws.{get_elem?-splice_before, At-splice, length-splice, At-transfer}
use c_dns_pkt.Dns.{dns_label_maxstr, dns_max_suffix}
use c_dns_pkt.Dns.Name.Wire.{NameAt, label, NameAt_begins, dot_text}
use c_dns_pkt.Dns.Name.Encode.{
  Suffix, Enc, same_text, find_suffix, add_suffix, split_dot, name_labels,
}
use c_dns_pkt.Dns.Name.Encode.Domain.{
  IsLabel, same_text_refl, same_text-append, same_text-length, NameAt-first,
}
use c_dns_pkt.Dns.Name.Encode.Table.{prefix, IsValid}
use c_dns_pkt.Dns.Name.Encode.Encoded.{
  Encoded, Writes, put_lem, prefix-some, prefix_value, Reads-prefix,
}

-- An entry for the name that is being written.
abbrev pub Pending : Bytes → ℕ → Suffix → Type 0
Pending name wptr s = (s.name ≡ name) × (s.offset ≡ wptr)

add_suffix_lem :
    (enc : Enc) (wptr : ℕ) (name : Bytes)
    → wptr < 2 ^ 14
    → (p : List Suffix) × (add_suffix enc wptr name ≡ record enc { suffix = enc.suffix ++ p })
      × All (Pending name wptr) p
unfolding add_suffix
add_suffix_lem enc wptr name h = elim (Bool-cases (ltb (length enc.suffix) dns_max_suffix)) [
  | inl t ↦ (record { name = name; offset = wptr % 2 ^ 16 } ∷ [], rw t, ((refl, omega arith), tt))
  | inr t ↦ ([], rw (t, append-nil), tt)
]

take_all : (bs : Bytes) → take (length bs) bs ≡ bs
take_all [] = refl
take_all (b ∷ bs) = rw (take_all bs)

-- A name is its first label, with a dot and a rest or with none.
abbrev pub Shape : Bytes → Bytes → Bytes → Type 0
Shape name bytes rest =
    ((rest ≡ []) × (name ≡ bytes)) ⊎ ((rest ≢ []) × (name ≡ bytes ++ b'.' ∷ rest))

ne_text : (text rest : Bytes) → same_text text rest ≡ true → rest ≢ [] → text ≢ []
ne_text [] [] h r = r
ne_text [] (x ∷ xs) h r = λ _. omega (arith, same_text-length [] (x ∷ xs) h)
ne_text (x ∷ xs) rest h r = λ e. cc

-- The text of a label and of what stands behind it is the name again, up to case.
joins :
    (name bytes rest text : Bytes) (next : ℕ)
    → Shape name bytes rest
    → same_text text rest ≡ true
    → (rest ≡ [] → next ≡ 0)
    → (text ≢ [] → next ≢ 0)
    → same_text (bytes ++ dot_text next text) name ≡ true
joins name bytes rest text next (inl (r, n)) s z nz =
    let none_left : text ≡ [] = no_text text (rw r at s) in
    let last : dot_text next text ≡ [] = rw (z r, none_left) in
    rw (last, append-nil, n) (same_text_refl bytes)
  where
    no_text : (text : Bytes) → same_text text [] ≡ true → text ≡ []
    no_text [] h = refl
    no_text (x ∷ xs) h = absurd (omega (arith, same_text-length (x ∷ xs) [] h))
joins name bytes rest text next (inr (r, n)) s z nz =
    let some_text : next ≢ 0 = nz (ne_text text rest s r) in
    let more : (next == 0) ≡ false = ground arith in
    rw (more, n)
      (same_text-append bytes (b'.' ∷ text) (b'.' ∷ rest)
        (same_text-append (b'.' ∷ []) text rest s))

pub sizes :
    (name bytes rest : Bytes) → Shape name bytes rest → length bytes + length rest ≤ length name
sizes name bytes rest (inl (r, n)) = omega (arith, ap length r, ap length n)
sizes name bytes rest (inr (r, n)) = omega (arith, ap length n, length-append bytes (b'.' ∷ rest))

fits :
    (name bytes rest : Bytes) (wptr wptr' : ℕ)
    → Shape name bytes rest
    → (rest ≡ [] → wptr' ≡ wptr + 1 + length bytes + 1)
    → wptr' ≤ wptr + 1 + length bytes + length rest + 2
    → wptr' ≤ wptr + length name + 2
fits name bytes rest wptr wptr' (inl (r, n)) e h = omega (arith, e r, ap length n)
fits name bytes rest wptr wptr' (inr (r, n)) e h =
    omega (arith, ap length n, length-append bytes (b'.' ∷ rest))

pub pos_length : (bs : Bytes) → bs ≢ [] → 0 < length bs
pos_length [] h = absurd (h refl)
pos_length (b ∷ bs) h = omega arith

module _ (enc : Enc) (wptr depth : ℕ) (name bytes rest : Bytes) (p : List Suffix) where
  -- What the encoder holds once the label is written.
  abbrev pub labelled : Enc
  labelled = record enc {
    suffix = enc.suffix ++ p;
    pkt_buf = splice wptr (length bytes ∷ bytes) enc.pkt_buf;
  }

  label-Encoded :
      (enc' : Enc) (wptr' : ℕ)
      → IsLabel bytes
      → Shape name bytes rest
      → 12 ≤ wptr
      → wptr + length name + 2 ≤ length enc.pkt_buf
      → length enc.pkt_buf ≤ 2 ^ 14
      → All (Pending name wptr) p
      → Encoded labelled enc' (wptr + 1 + length bytes) wptr' depth rest
      → Encoded enc enc' wptr wptr' depth name
  label-Encoded enc' wptr' l shape low fit small pend e =
      let (next, begins) = NameAt_begins e.stands in
      let some_bytes = pos_length bytes l.ne_nil in
      let size = sizes name bytes rest shape in
      let whole = At-splice wptr (length bytes ∷ bytes) enc.pkt_buf (omega arith) in
      let full = bytes ++ dot_text next e.text in
      let stands : NameAt (prefix enc'.pkt_buf wptr') wptr wptr' e.jumps full =
        label {next = next} {text = e.text} bytes
          (prefix-some enc'.pkt_buf wptr' wptr (length bytes) (omega (arith, e.ahead))
            (e.frame wptr (omega arith) ∙ whole.0))
          some_bytes (omega (arith, l.short)) refl
          (Reads-prefix enc'.pkt_buf wptr' (wptr + 1) bytes (omega (arith, e.ahead)) (
            At-transfer _ enc'.pkt_buf (wptr + 1) bytes (λ j g k. e.frame j (omega arith)) whole.1))
          refl begins e.stands refl in
      let same =
        joins name bytes rest e.text next shape e.same
          (λ r. prefix_value enc'.pkt_buf wptr' _ next 0 begins (e.ends r).0)
          (NameAt-first e.stands begins) in
      record {
        text = full;
        jumps = e.jumps;
        stands = stands;
        same = same;
        shallow = e.shallow;
        ahead = omega (arith, e.ahead);
        within = fits name bytes rest wptr wptr' shape (λ r. (e.ends r).1) e.within;
        size = e.size ∙ length-splice wptr (length bytes ∷ bytes) enc.pkt_buf;
        frame = λ i h.
            e.frame i (omega arith)
            ∙ get_elem?-splice_before wptr (length bytes ∷ bytes) enc.pkt_buf i h;
        keeps_len = e.keeps_len;
        keeps_max = e.keeps_max;
        ends = λ n. absurd (omega (arith, ap length n));
        added = p ++ e.added;
        grows = e.grows ∙ append_assoc enc.suffix p e.added;
        valid =
            All-append _ p e.added
              (All-map (Pending name wptr) (IsValid enc'.pkt_buf wptr' (depth + 1)) p
                (λ s (n, o). record {
                  text = full;
                  after = wptr';
                  jumps = e.jumps;
                  stands = rw o stands;
                  same = rw n same;
                  shallow = e.shallow;
                  low = rw o low;
                  high = rw o (omega arith);
                })
                pend)
              e.valid;
      }

-- One round of the loop that writes a label and goes on with `rest`.
pub label-Writes :
    (fuel start depth : ℕ) (enc : Enc) (wptr c : ℕ) (cs bytes rest : Bytes) (r : Option Bytes)
    → find_suffix enc.suffix start (c ∷ cs) ≡ none
    → split_dot (c ∷ cs) ≡ (bytes, r)
    → or_empty r ≡ rest
    → IsLabel bytes
    → Shape (c ∷ cs) bytes rest
    → 12 ≤ wptr
    → wptr + length (c ∷ cs) + 2 ≤ length enc.pkt_buf
    → length enc.pkt_buf ≤ 2 ^ 14
    → ((p : List Suffix)
        → All (Pending (c ∷ cs) wptr) p
        → Writes
            (labelled enc wptr depth (c ∷ cs) bytes rest p)
            (wptr + 1 + length bytes)
            depth
            rest
            (name_labels fuel start
              (labelled enc wptr depth (c ∷ cs) bytes rest p)
              (wptr + 1 + length bytes)
              rest))
    → Writes enc wptr depth (c ∷ cs) (name_labels (suc fuel) start enc wptr (c ∷ cs))
unfolding name_labels
label-Writes fuel start depth enc wptr c cs bytes rest r missing split remains l shape low fit small
      next =
    let size = sizes (c ∷ cs) bytes rest shape in
    let (p, entered, pend) = add_suffix_lem enc wptr (c ∷ cs) (omega arith) in
    let cut : length bytes % 2 ^ 8 ≡ length bytes = omega (arith, l.short) in
    let short : ltb dns_label_maxstr (length bytes) ≡ false = ground (arith, l.short) in
    let put =
      put_lem (record enc { suffix = enc.suffix ++ p }) wptr (length bytes ∷ bytes) (omega arith) in
    let (enc', wptr', run, e) = next p pend in
    (
      enc',
      wptr',
      rw (missing, name_labels) (rw (entered, split, cut, short, take_all bytes, put, remains) run),
      label-Encoded enc wptr depth (c ∷ cs) bytes rest p enc' wptr' l shape low fit small pend e,
    )
