-- ===== src/Dns/Name/Encode/Encoded.antt =====
-- The result of `encode_name` of src/dns_proto.c, and its rounds that write the root or a pointer.
use c_dns_pkt.Prelude.{
  ℕ, suc, ◌+◌, ◌≤◌, ◌<◌, ◌≡◌, refl, sym, ap, true, List, [], ◌∷◌, ◌++◌, length, All, bit_or, Option,
  some, get_elem?, arith, Exec, ok, ◌>>=◌,
}
use mathlib.Core.List.{append-nil}
use c_dns_pkt.Mem.{Bytes, splice, Reads, At}
use c_dns_pkt.Mem.Laws.{get_elem?-splice_before, At-splice, length-splice, write_at_lem}
use c_dns_pkt.Words.{u16_bytes}
use c_dns_pkt.Dns.Name.Wire.{NameAt, root, pointer, NameAt_extend}
use c_dns_pkt.Dns.Name.Encode.{Suffix, Enc, same_text, enc_put, name_labels}
use c_dns_pkt.Dns.Name.Encode.Domain.{same_text_refl, same_text_trans}
use c_dns_pkt.Dns.Name.Encode.Table.{prefix, prefix_mono, IsValid, pointer_bytes}

-- From `enc` to `enc'` the name was written at `wptr`, up to `wptr'`.
pub record Encoded (enc enc' : Enc) (wptr wptr' depth : ℕ) (name : Bytes) : Type 0 where
  pub text : Bytes
  pub jumps : ℕ
  pub stands : NameAt (prefix enc'.pkt_buf wptr') wptr wptr' jumps text
  pub same : same_text text name ≡ true
  pub shallow : jumps ≤ depth + 1
  pub ahead : wptr < wptr'
  pub within : wptr' ≤ wptr + length name + 2
  pub size : length enc'.pkt_buf ≡ length enc.pkt_buf
  pub frame : (i : ℕ) → i < wptr → get_elem? enc'.pkt_buf i ≡ get_elem? enc.pkt_buf i
  pub keeps_len : enc'.pkt_len ≡ enc.pkt_len
  pub keeps_max : enc'.pkt_max ≡ enc.pkt_max
  pub ends : name ≡ [] → (get_elem? enc'.pkt_buf wptr ≡ some 0) × (wptr' ≡ wptr + 1)
  pub added : List Suffix
  pub grows : enc'.suffix ≡ enc.suffix ++ added
  pub valid : All (IsValid enc'.pkt_buf wptr' (depth + 1)) added

abbrev pub Writes : Enc → ℕ → ℕ → Bytes → Exec (Enc × Option ℕ) → Type 0
Writes enc wptr depth name run =
    (enc' : Enc) × (wptr' : ℕ) × (run ≡ ok (enc', some wptr'))
    × Encoded enc enc' wptr wptr' depth name

pub put_lem :
    (enc : Enc) (wptr : ℕ) (bs : Bytes)
    → wptr + length bs ≤ length enc.pkt_buf
    → enc_put enc wptr bs ≡ ok (record enc { pkt_buf = splice wptr bs enc.pkt_buf })
unfolding enc_put
put_lem enc wptr bs h = rw (write_at_lem wptr bs enc.pkt_buf h)

pub prefix-some :
    (buf : Bytes) (n i b : ℕ) → i < n → get_elem? buf i ≡ some b → prefix buf n i ≡ some b
prefix-some buf n i b h e = ground arith

pub prefix_value :
    (buf : Bytes) (n i b c : ℕ) → prefix buf n i ≡ some b → get_elem? buf i ≡ some c → b ≡ c
prefix_value buf n i b c h e = ground arith

pub Reads-prefix :
    (buf : Bytes) (n i : ℕ) (bs : Bytes)
    → i + length bs ≤ n
    → At buf i bs
    → Reads (prefix buf n) i bs
Reads-prefix buf n i [] h a = tt
Reads-prefix buf n i (b ∷ bs) h (e, a) =
    (prefix-some buf n i b (omega arith) e, Reads-prefix buf n (i + 1) bs (omega arith) a)

pub root-Writes :
    (fuel start depth : ℕ) (enc : Enc) (wptr : ℕ)
    → wptr + 1 ≤ length enc.pkt_buf
    → Writes enc wptr depth [] (name_labels (suc fuel) start enc wptr [])
unfolding name_labels
root-Writes fuel start depth enc wptr h =
    let buf = splice wptr (0 ∷ []) enc.pkt_buf in
    (
      record enc { pkt_buf = buf },
      wptr + 1,
      rw (put_lem enc wptr (0 ∷ []) (omega arith)),
      record {
        text = [];
        jumps = 0;
        stands =
            root
              (prefix-some buf _ wptr 0 (omega arith)
                (At-splice wptr (0 ∷ []) enc.pkt_buf (omega arith)).0)
              refl;
        same = same_text_refl [];
        shallow = omega arith;
        ahead = omega arith;
        within = omega arith;
        size = length-splice wptr (0 ∷ []) enc.pkt_buf;
        frame = λ i. get_elem?-splice_before wptr (0 ∷ []) enc.pkt_buf i;
        keeps_len = refl;
        keeps_max = refl;
        ends = λ _. ((At-splice wptr (0 ∷ []) enc.pkt_buf (omega arith)).0, refl);
        added = [];
        grows = sym (append-nil enc.suffix);
        valid = tt;
      },
    )

pub pointer-Writes :
    (start depth : ℕ) (enc : Enc) (wptr : ℕ) (name : Bytes) (offset : ℕ)
    → start ≤ wptr
    → 0 < length name
    → wptr + 2 ≤ length enc.pkt_buf
    → (s : Suffix) × IsValid enc.pkt_buf start depth s
      × (s.offset ≡ offset)
      × (s.offset < start)
      × (same_text s.name name ≡ true)
    → Writes enc wptr depth name
        (do enc' ← enc_put enc wptr (u16_bytes (bit_or 0xC000 offset)); ok (enc', some (wptr + 2)))
pointer-Writes start depth enc wptr name offset le ne h (s, v, e, lt, m) =
    let two = u16_bytes (bit_or 0xC000 offset) in
    let buf = splice wptr two enc.pkt_buf in
    let there =
      Reads-prefix buf (wptr + 2) wptr two (omega arith) (At-splice wptr two enc.pkt_buf h) in
    let value = pointer_bytes offset (omega (arith, v.high)) in
    (
      record enc { pkt_buf = buf },
      wptr + 2,
      rw (put_lem enc wptr two (omega arith)),
      record {
        text = v.text;
        jumps = suc v.jumps;
        stands =
            pointer there.0 (omega arith) there.1.0 (omega arith) v.low
              (NameAt_extend
                (prefix_mono enc.pkt_buf buf start (wptr + 2) (omega arith)
                  (λ i k. get_elem?-splice_before wptr two enc.pkt_buf i (omega arith)))
                v.stands)
              refl;
        same = same_text_trans v.text s.name name v.same m;
        shallow = omega (arith, v.shallow);
        ahead = omega arith;
        within = omega arith;
        size = length-splice wptr two enc.pkt_buf;
        frame = λ i. get_elem?-splice_before wptr two enc.pkt_buf i;
        keeps_len = refl;
        keeps_max = refl;
        ends = λ e. absurd (omega (arith, ap length e));
        added = [];
        grows = sym (append-nil enc.suffix);
        valid = tt;
      },
    )
