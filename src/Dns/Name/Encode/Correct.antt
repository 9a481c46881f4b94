-- ===== src/Dns/Name/Encode/Correct.antt =====
-- The whole loop of `encode_name` of src/dns_proto.c, from any table of suffixes.
use c_dns_pkt.Prelude.{
  ℕ, zero, suc, ◌+◌, ◌^◌, ◌≤◌, ◌<◌, ◌≡◌, ◌≢◌, refl, ap, List, [], ◌∷◌, length, All, All-map,
  All-append, Option, none, some, arith, Option-cases, inl, inr, length-append,
}
use c_dns_pkt.Mem.{Bytes, or_empty, splice}
use c_dns_pkt.Mem.Laws.{get_elem?-splice_before, length-splice}
use c_dns_pkt.Dns.Name.Encode.{Suffix, Enc, find_suffix, split_dot, name_labels, encode_name}
use c_dns_pkt.Dns.Name.Encode.Domain.{
  IsLabel, IsDomain, empty, last, dotted, split_dot_last, split_dot_dotted,
}
use c_dns_pkt.Dns.Name.Encode.Table.{IsValid-mono, Usable, find_suffix-IsValid}
use c_dns_pkt.Dns.Name.Encode.Encoded.{Writes, root-Writes, pointer-Writes}
use c_dns_pkt.Dns.Name.Encode.Labels.{Pending, Shape, sizes, pos_length, labelled, label-Writes}

-- The parts of a name that is not the root.
record First (name : Bytes) : Type 0 where
  bytes : Bytes
  rest : Bytes
  behind : Option Bytes
  split : split_dot name ≡ (bytes, behind)
  remains : or_empty behind ≡ rest
  is_label : IsLabel bytes
  shape : Shape name bytes rest
  domain : IsDomain rest

First-label : (name : Bytes) → IsDomain name → name ≢ [] → First name
First-label name (empty e) ne = absurd (ne e)
First-label name (last l) ne = record {
  bytes = name;
  rest = [];
  behind = none;
  split = split_dot_last name l.no_dot;
  remains = refl;
  is_label = l;
  shape = inl (refl, refl);
  domain = empty refl;
}
First-label name (dotted {rest} bytes l d r e) ne = record {
  bytes = bytes;
  rest = rest;
  behind = some rest;
  split = rw e (split_dot_dotted bytes rest l.no_dot);
  remains = refl;
  is_label = l;
  shape = inr (r, e);
  domain = d;
}

-- The bytes that a name takes at most.
abbrev need : Bytes → ℕ
need [] = 1
need (c ∷ cs) = length cs + 3

need_some : (name : Bytes) → name ≢ [] → need name ≡ length name + 2
need_some [] h = absurd (h refl)
need_some (c ∷ cs) h = omega arith

need-le : (name : Bytes) → need name ≤ length name + 2
need-le [] = omega arith
need-le (c ∷ cs) = omega arith

-- Behind a label there is room for the rest.
rest_fits :
    (enc : Enc) (wptr : ℕ) (name bytes rest : Bytes)
    → Shape name bytes rest
    → wptr + length name + 2 ≤ length enc.pkt_buf
    → wptr + 1 + length bytes + need rest ≤ length (splice wptr (length bytes ∷ bytes) enc.pkt_buf)
rest_fits enc wptr name bytes rest (inl (r, n)) h =
    rw r (omega (arith, ap length n, length-splice wptr (length bytes ∷ bytes) enc.pkt_buf))
rest_fits enc wptr name bytes rest (inr (r, n)) h = omega (
  arith,
  need_some rest r,
  ap length n,
  length-append bytes (b'.' ∷ rest),
  length-splice wptr (length bytes ∷ bytes) enc.pkt_buf,
)

labelled-Usable :
    (start depth : ℕ) (enc : Enc) (wptr : ℕ) (name bytes rest : Bytes) (p : List Suffix)
    → start ≤ wptr
    → All (Pending name wptr) p
    → All (Usable enc.pkt_buf start depth) enc.suffix
    → All
        (Usable (labelled enc wptr depth name bytes rest p).pkt_buf start depth)
        (labelled enc wptr depth name bytes rest p).suffix
labelled-Usable start depth enc wptr name bytes rest p le pend t =
    let buf = splice wptr (length bytes ∷ bytes) enc.pkt_buf in
    All-append (Usable buf start depth) enc.suffix p
      (All-map (Usable enc.pkt_buf start depth) (Usable buf start depth) enc.suffix
        (λ s u h.
          IsValid-mono enc.pkt_buf buf start start depth depth s (omega arith) (omega arith)
            (λ i k. get_elem?-splice_before wptr (length bytes ∷ bytes) enc.pkt_buf i (omega arith))
            (u h))
        t)
      (All-map (Pending name wptr) (Usable buf start depth) p (λ s (n, o) h. absurd (omega arith))
        pend)

module _ (start depth : ℕ) where
  -- Every loop from a state in which the entries in front of `start` are valid.
  name_labels-Encoded :
      (fuel : ℕ) (enc : Enc) (wptr : ℕ) (name : Bytes)
      → IsDomain name
      → length name < fuel
      → start ≤ wptr
      → 12 ≤ wptr
      → wptr + need name ≤ length enc.pkt_buf
      → length enc.pkt_buf ≤ 2 ^ 14
      → All (Usable enc.pkt_buf start depth) enc.suffix
      → Writes enc wptr depth name (name_labels fuel start enc wptr name)
  name_labels-Encoded zero enc wptr name d f le low fit small t = absurd (omega arith)
  name_labels-Encoded (suc fuel) enc wptr [] d f le low fit small t =
      root-Writes fuel start depth enc wptr (omega arith)
  name_labels-Encoded (suc fuel) enc wptr (c ∷ cs) d f le low fit small t =
      elim (Option-cases (find_suffix enc.suffix start (c ∷ cs))) [
        | inr (offset, found) ↦
            unfold name_labels in
            rw (found, name_labels)
              (pointer-Writes start depth enc wptr (c ∷ cs) offset le (omega arith) (omega arith)
                (find_suffix-IsValid enc.pkt_buf start depth enc.suffix (c ∷ cs) offset t found))
        | inl missing ↦
            let fst = First-label (c ∷ cs) d (λ e. cc) in
            let size = sizes (c ∷ cs) fst.bytes fst.rest fst.shape in
            let some_bytes = pos_length fst.bytes fst.is_label.ne_nil in
            label-Writes fuel start depth enc wptr c cs fst.bytes fst.rest fst.behind missing
              fst.split fst.remains fst.is_label fst.shape low (omega arith) small
              (λ p pend.
                name_labels-Encoded fuel (labelled enc wptr depth (c ∷ cs) fst.bytes fst.rest p)
                  (wptr + 1 + length fst.bytes) fst.rest fst.domain (omega arith) (omega arith)
                  (omega arith)
                  (rest_fits enc wptr (c ∷ cs) fst.bytes fst.rest fst.shape (omega arith))
                  (omega (arith, length-splice wptr (length fst.bytes ∷ fst.bytes) enc.pkt_buf))
                  (labelled-Usable start depth enc wptr (c ∷ cs) fst.bytes fst.rest p le pend t))
      ]

-- `encode_name` writes any domain name within the buffer. What it writes stands there as a name on
-- the wire, and the table stays valid.
pub encode_name-Encoded :
    (depth : ℕ) (enc : Enc) (wptr : ℕ) (name : Bytes)
    → IsDomain name
    → 12 ≤ wptr
    → wptr + length name + 2 ≤ length enc.pkt_buf
    → length enc.pkt_buf ≤ 2 ^ 14
    → All (Usable enc.pkt_buf wptr depth) enc.suffix
    → Writes enc wptr depth name (encode_name enc wptr (some name))
unfolding encode_name
encode_name-Encoded depth enc wptr name d low fit small t =
    name_labels-Encoded wptr depth (length name + 1) enc wptr name d (omega arith) (omega arith) low
      (omega (arith, need-le name)) small t
