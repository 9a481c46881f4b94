-- ===== src/Dns/Encode/Question.antt =====
-- `dns_enc_quest` of src/dns_proto.c: what it leaves in the packet.
use c_dns_pkt.Prelude.{
  ℕ, ◌+◌, ◌-◌, ◌^◌, ◌≤◌, ◌<◌, ◌≡◌, refl, ap, ◌∙◌, true, length, All, All-map, some, get_elem?, ok,
  ◌>>=◌, pos, arith, inl,
}
use c_dns_pkt.Mem.{Bytes, splice, At}
use c_dns_pkt.Mem.Laws.{At-splice, At-splice_other, length-splice, get_elem?-splice_before}
use c_dns_pkt.Words.{u16_bytes}
use c_dns_pkt.Dns.Name.Wire.{NameAt, NameAt_extend}
use c_dns_pkt.Dns.Name.Encode.{Enc, same_text}
use c_dns_pkt.Dns.Name.Encode.Domain.{IsDomain}
use c_dns_pkt.Dns.Name.Encode.Table.{prefix, prefix_mono, IsValid, IsValid-mono, Usable}
use c_dns_pkt.Dns.Name.Encode.Encoded.{Encoded}
use c_dns_pkt.Dns.Name.Encode.Correct.{encode_name-Encoded}
use c_dns_pkt.Dns.Name.RoundTrip.{encode_name-IsValid}
use c_dns_pkt.Dns.Encode.{dns_enc_quest, put_u16, dns_enc_retspace, size_sub}
use c_dns_pkt.Dns.Encode.Space.{dns_enc_mkspace_lem, dns_enc_retspace_lem, put_u16_lem}

-- The question with name `name` stands in the packet between the two lengths, and the table is valid.
pub record QuestEncoded (enc enc' : Enc) (depth : ℕ) (name : Bytes) (qtype qclass : ℕ)
    : Type 0 where
  pub text : Bytes
  pub jumps : ℕ
  pub mid : ℕ
  pub stands : NameAt (prefix enc'.pkt_buf mid) enc.pkt_len mid jumps text
  pub same : same_text text name ≡ true
  pub shallow : jumps ≤ depth + 1
  pub within : mid ≤ enc.pkt_len + length name + 2
  pub ahead : enc.pkt_len < mid
  pub type : At enc'.pkt_buf mid (u16_bytes qtype)
  pub class : At enc'.pkt_buf (mid + 2) (u16_bytes qclass)
  pub ends : enc'.pkt_len ≡ mid + 4
  pub size : length enc'.pkt_buf ≡ length enc.pkt_buf
  pub keeps_max : enc'.pkt_max ≡ enc.pkt_max
  pub frame : (i : ℕ) → i < enc.pkt_len → get_elem? enc'.pkt_buf i ≡ get_elem? enc.pkt_buf i
  pub table : All (IsValid enc'.pkt_buf enc'.pkt_len (depth + 1)) enc'.suffix

-- The two words behind a name.
abbrev with_words : Bytes → ℕ → ℕ → ℕ → Bytes
with_words buf mid v w = splice (mid + 2) (u16_bytes w) (splice mid (u16_bytes v) buf)

length-with_words : (buf : Bytes) (mid v w : ℕ) → length (with_words buf mid v w) ≡ length buf
length-with_words buf mid v w =
    length-splice (mid + 2) (u16_bytes w) (splice mid (u16_bytes v) buf)
    ∙ length-splice mid (u16_bytes v) buf

with_words_frame :
    (buf : Bytes) (mid v w i : ℕ) → i < mid → get_elem? (with_words buf mid v w) i ≡ get_elem? buf i
with_words_frame buf mid v w i h =
    get_elem?-splice_before (mid + 2) (u16_bytes w) (splice mid (u16_bytes v) buf) i (omega arith)
    ∙ get_elem?-splice_before mid (u16_bytes v) buf i h

At-with_words :
    (buf : Bytes) (mid v w : ℕ)
    → mid + 4 ≤ length buf
    → At (with_words buf mid v w) mid (u16_bytes v)
      × At (with_words buf mid v w) (mid + 2) (u16_bytes w)
At-with_words buf mid v w fits =
    let one = splice mid (u16_bytes v) buf in
    let long = length-splice mid (u16_bytes v) buf in
    (
      At-splice_other (mid + 2) (u16_bytes w) one mid (u16_bytes v) (inl (omega arith))
          (At-splice mid (u16_bytes v) buf (omega arith)),
      At-splice (mid + 2) (u16_bytes w) one (omega arith),
    )

module _ (depth : ℕ) (enc : Enc) (name : Bytes) (qtype qclass : ℕ) where
  -- The encoder with the space for a question taken.
  abbrev reserved : Enc
  reserved = record enc { pkt_len = enc.pkt_len + 259 }

  -- Behind the name, the words are stored and the rest of the space goes back.
  quest_ends :
      (named : Enc) (mid : ℕ)
      → named.pkt_len ≡ enc.pkt_len + 259
      → enc.pkt_len < mid
      → mid + 4 ≤ enc.pkt_len + 259
      → mid + 4 ≤ length named.pkt_buf
      → (do
        (e, wptr) ← put_u16 named mid qtype
        (e, wptr) ← put_u16 e wptr qclass
        ok (dns_enc_retspace e (size_sub 259 (wptr - enc.pkt_len))))
        ≡ ok (
          record named { pkt_buf = with_words named.pkt_buf mid qtype qclass; pkt_len = mid + 4 },
          pos 0,
        )
  quest_ends named mid len ahead fits room =
      let one = splice mid (u16_bytes qtype) named.pkt_buf in
      let long = length-splice mid (u16_bytes qtype) named.pkt_buf in
      rw
        (
          put_u16_lem named mid qtype (omega arith),
          put_u16_lem (record named { pkt_buf = one }) (mid + 2) qclass (omega arith),
          dns_enc_retspace_lem
              (record named { pkt_buf = with_words named.pkt_buf mid qtype qclass }) 259
              (mid + 2 + 2 - enc.pkt_len) (omega arith) (omega arith) (omega arith),
        )
        (ap
          (λ (n : ℕ). ok (
            record named { pkt_buf = with_words named.pkt_buf mid qtype qclass; pkt_len = n },
            pos 0,
          ))
          (omega arith))

  quest_encoded :
      (named : Enc) (mid : ℕ)
      → mid + 4 ≤ length enc.pkt_buf
      → Encoded reserved named enc.pkt_len mid depth name
      → All (IsValid named.pkt_buf mid (depth + 1)) named.suffix
      → QuestEncoded enc
          (record named { pkt_buf = with_words named.pkt_buf mid qtype qclass; pkt_len = mid + 4 })
          depth
          name
          qtype
          qclass
  quest_encoded named mid room e table =
      let frame = with_words_frame named.pkt_buf mid qtype qclass in
      let words = At-with_words named.pkt_buf mid qtype qclass (omega (arith, e.size)) in
      record {
        text = e.text;
        jumps = e.jumps;
        mid = mid;
        stands = NameAt_extend (prefix_mono named.pkt_buf _ mid mid (omega arith) frame) e.stands;
        same = e.same;
        shallow = e.shallow;
        within = e.within;
        ahead = e.ahead;
        type = words.0;
        class = words.1;
        ends = refl;
        size = length-with_words named.pkt_buf mid qtype qclass ∙ e.size;
        keeps_max = e.keeps_max;
        frame = λ i h. frame i (omega (arith, e.ahead)) ∙ e.frame i h;
        table =
            All-map (IsValid named.pkt_buf mid (depth + 1)) (IsValid _ (mid + 4) (depth + 1))
              named.suffix
              (λ s.
                IsValid-mono named.pkt_buf _ mid (mid + 4) (depth + 1) (depth + 1) s (omega arith)
                  (omega arith) frame)
              table;
      }

  -- A question whose name is a domain name of at most 253 characters is encoded where the packet has
  -- space for 259 bytes behind a header, in a packet of at most 16384 bytes: the call returns 0, the
  -- name stands where the packet ended, up to letter case, the type and the class behind it, the
  -- packet ends behind them, what stood before is as it was, and the table of suffixes stays valid.
  pub dns_enc_quest-QuestEncoded :
      IsDomain name
      → length name ≤ 253
      → 12 ≤ enc.pkt_len
      → enc.pkt_len + 259 ≤ enc.pkt_max
      → enc.pkt_max ≤ length enc.pkt_buf
      → length enc.pkt_buf ≤ 2 ^ 14
      → All (IsValid enc.pkt_buf enc.pkt_len depth) enc.suffix
      → (enc' : Enc) × (dns_enc_quest enc
            (record { qname = some name; qtype = qtype; qclass = qclass })
          ≡ ok (enc', pos 0))
        × QuestEncoded enc enc' depth name qtype qclass
  unfolding dns_enc_quest
  dns_enc_quest-QuestEncoded d short low fits holds small table =
      let usable =
        All-map (IsValid enc.pkt_buf enc.pkt_len depth) (Usable enc.pkt_buf enc.pkt_len depth)
          enc.suffix (λ s v _. v) table in
      let (named, mid, run, e) =
        encode_name-Encoded depth reserved enc.pkt_len name d low (omega arith) small usable in
      let kept =
        encode_name-IsValid depth reserved named enc.pkt_len mid name d low (omega arith) small
          table run in
      let done =
        quest_ends named mid e.keeps_len e.ahead (omega (arith, e.within))
          (omega (arith, e.size, e.within)) in
      (
        record named { pkt_buf = with_words named.pkt_buf mid qtype qclass; pkt_len = mid + 4 },
        rw (dns_enc_mkspace_lem enc 259 fits (omega arith), run) done,
        quest_encoded named mid (omega (arith, e.within)) e kept,
      )
