-- ===== src/Dns/Encode/Faults.antt =====
-- The branches of `dns_rr_encode` of src/dns_proto.c for the data of OPT and SRV records.
use c_dns_pkt.Prelude.{
  ℕ, ◌+◌, ◌*◌, ◌/◌, ◌%◌, ◌^◌, ◌≤◌, ◌<◌, ◌≡◌, refl, ◌∙◌, false, length, bit_or, fault, leb, ◌==◌,
  if◌then◌else◌, arith, Bool-cases, inl, inr,
}
use c_dns_pkt.Prelude.Bits.{or_disjoint, bit_and-ones}
use c_dns_pkt.Mem.{Str, write_at, splice}
use c_dns_pkt.Mem.Laws.{length-splice}
use c_dns_pkt.Words.{u16_bytes, enc_u16}
use c_dns_pkt.Dns.Name.Encode.{Enc}
use c_dns_pkt.Dns.Message.{opt, srv}
use c_dns_pkt.Dns.Encode.{encode_rdata, opt_ttl, put_u16}
use c_dns_pkt.Dns.Encode.Space.{dns_enc_mkspace_lem, put_u16_lem}

-- The two upper bytes of the ttl of an OPT record.
upper_bytes :
    (e v : ℕ)
    → e < 256
    → v < 256
    → bit_or (e * 2 ^ 24 % 2 ^ 32) (v * 2 ^ 16 % 2 ^ 32) ≡ (e * 256 + v) * 2 ^ 16
upper_bytes e v he hv =
    let left : e * 2 ^ 24 % 2 ^ 32 ≡ e * 2 ^ 24 = omega arith in
    let right : v * 2 ^ 16 % 2 ^ 32 ≡ v * 2 ^ 16 = omega arith in
    rw (left, right) (or_disjoint 24 e (v * 2 ^ 16) (omega arith) ∙ omega arith)

-- What the ttl of an OPT record is made of.
pub opt_ttl_lem :
    (e v d z : ℕ)
    → e < 256
    → v < 256
    → z < 2 ^ 15
    → opt_ttl e v d z ≡ (e * 256 + v) * 2 ^ 16 + (if d == 0 then z else 0x8000 + z)
unfolding opt_ttl
opt_ttl_lem e v d z he hv hz =
    let mask = bit_and-ones 15 z 0x7fff refl hz in
    let high = upper_bytes e v he hv in
    elim (Bool-cases (d == 0)) [
      | inl off ↦ rw (off, mask, high) (or_disjoint 16 (e * 256 + v) z (omega arith))
      | inr on ↦
          let bit = or_disjoint 16 (e * 256 + v) 0x8000 (omega arith) in
          let odd : (e * 256 + v) * 2 ^ 16 + 0x8000 ≡ ((e * 256 + v) * 2 + 1) * 2 ^ 15 =
            omega arith in
          rw (on, mask, high, bit, odd) (or_disjoint 15 ((e * 256 + v) * 2 + 1) z hz ∙ omega arith)
    ]

-- Two OPT records that differ in nothing but the extended rcode and the EDNS version, bytes both, are
-- stored alike, from any encoder and for any z of 15 bits.
pub encode_rdata-opt :
    (enc : Enc) (rdlen_ptr udp_size e v e' v' d z : ℕ)
    → e < 256
    → v < 256
    → e' < 256
    → v' < 256
    → z < 2 ^ 15
    → encode_rdata enc rdlen_ptr (opt udp_size e v d z)
      ≡ encode_rdata enc rdlen_ptr (opt udp_size e' v' d z)
unfolding encode_rdata put_u16 enc_u16
encode_rdata-opt enc rdlen_ptr udp_size e v e' v' d z he hv he' hv' hz =
    let flags = if d == 0 then z else 0x8000 + z in
    let one = opt_ttl_lem e v d z he hv hz in
    let two = opt_ttl_lem e' v' d z he' hv' hz in
    let high : opt_ttl e v d z / 2 ^ 8 % 256 ≡ opt_ttl e' v' d z / 2 ^ 8 % 256 = omega arith in
    let low : opt_ttl e v d z % 256 ≡ opt_ttl e' v' d z % 256 = omega arith in rw (high, low) refl

put_u16-fault :
    (enc : Enc) (wptr value : ℕ) → length enc.pkt_buf < wptr + 2 → put_u16 enc wptr value ≡ fault
unfolding put_u16 enc_u16 write_at
put_u16-fault enc wptr value short =
    let no : leb (wptr + 2) (length enc.pkt_buf) ≡ false = ground arith in rw no

-- Where the packet has the two bytes that are reserved for the data of an SRV record, and the buffer
-- ends less than six bytes behind what is used, the stores go past the end of the buffer.
pub encode_rdata-srv_fault :
    (enc : Enc) (rdlen_ptr prior weight port : ℕ) (name : Str)
    → enc.pkt_len + 2 ≤ enc.pkt_max
    → enc.pkt_max ≤ length enc.pkt_buf
    → enc.pkt_max < 2 ^ 64
    → length enc.pkt_buf < enc.pkt_len + 6
    → encode_rdata enc rdlen_ptr (srv prior weight port name) ≡ fault
unfolding encode_rdata
encode_rdata-srv_fault enc rdlen_ptr prior weight port name fits holds small short =
    let space = dns_enc_mkspace_lem enc 2 fits small in
    let w = enc.pkt_len in
    let enc0 : Enc = record enc { pkt_len = w + 2 } in
    let enc1 : Enc = record enc0 { pkt_buf = splice w (u16_bytes prior) enc.pkt_buf } in
    let size1 = length-splice w (u16_bytes prior) enc.pkt_buf in
    let first = put_u16_lem enc0 w prior (omega arith) in
    elim (Bool-cases (leb (w + 4) (length enc.pkt_buf))) [
      | inr less ↦ rw (space, first, put_u16-fault enc1 (w + 2) weight (ground arith))
      | inl most ↦
          let enc2 : Enc = record enc1 {
            pkt_buf = splice (w + 2) (u16_bytes weight) enc1.pkt_buf;
          } in
          let size2 = length-splice (w + 2) (u16_bytes weight) enc1.pkt_buf in
          rw (
            space,
            first,
            put_u16_lem enc1 (w + 2) weight (ground arith),
            put_u16-fault enc2 (w + 2 + 2) port (omega arith),
          )
    ]
