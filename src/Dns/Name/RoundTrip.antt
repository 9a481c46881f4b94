-- ===== src/Dns/Name/RoundTrip.antt =====
-- `encode_name` of src/dns_proto.c against the wire format and against `decode_name`.
use c_dns_pkt.Prelude.{
  ℕ, ◌+◌, ◌^◌, ◌≤◌, ◌<◌, ◌≡◌, sym, true, [], ◌∷◌, ◌++◌, length, All, All-map, All-append, some,
  get_elem?, ok, arith,
}
use mathlib.Core.Path.{subst}
use c_dns_pkt.Mem.{Bytes, IsByte}
use c_dns_pkt.Dns.Name.Wire.{Extends, NameAt, NameAt_extend}
use c_dns_pkt.Dns.Name.Decode.{named, decode_name}
use c_dns_pkt.Dns.Name.Decode.Complete.{decode_name-NameAt}
use c_dns_pkt.Dns.Name.Encode.{Enc, same_text, encode_name}
use c_dns_pkt.Dns.Name.Encode.Domain.{IsDomain, same_text-length}
use c_dns_pkt.Dns.Name.Encode.Table.{prefix, IsValid, IsValid-mono, Usable}
use c_dns_pkt.Dns.Name.Encode.Encoded.{Encoded}
use c_dns_pkt.Dns.Name.Encode.Correct.{encode_name-Encoded}

-- The encoder runs one way, so what it returned is what is known of it.
Encoded-run :
    (enc enc' enc'' : Enc) (wptr wptr' wptr'' depth : ℕ) (name : Bytes)
    → encode_name enc wptr (some name) ≡ ok (enc', some wptr')
    → encode_name enc wptr (some name) ≡ ok (enc'', some wptr'')
    → Encoded enc enc'' wptr wptr'' depth name
    → Encoded enc enc' wptr wptr' depth name
Encoded-run enc enc' enc'' wptr wptr' wptr'' depth name run run' e =
    let same_enc : enc'' ≡ enc' = cc in
    let same_end : wptr'' ≡ wptr' = cc in
    subst (λ x. Encoded enc x wptr wptr' depth name) same_enc
      (subst (λ x. Encoded enc enc'' wptr x depth name) same_end e)

encode_name_run :
    (depth : ℕ) (enc enc' : Enc) (wptr wptr' : ℕ) (name : Bytes)
    → IsDomain name
    → 12 ≤ wptr
    → wptr + length name + 2 ≤ length enc.pkt_buf
    → length enc.pkt_buf ≤ 2 ^ 14
    → All (Usable enc.pkt_buf wptr depth) enc.suffix
    → encode_name enc wptr (some name) ≡ ok (enc', some wptr')
    → Encoded enc enc' wptr wptr' depth name
encode_name_run depth enc enc' wptr wptr' name d low fit small t run =
    let (enc'', wptr'', run', e) = encode_name-Encoded depth enc wptr name d low fit small t in
    Encoded-run enc enc' enc'' wptr wptr' wptr'' depth name run run' e

pub encode_name-IsValid :
    (depth : ℕ) (enc enc' : Enc) (wptr wptr' : ℕ) (name : Bytes)
    → IsDomain name
    → 12 ≤ wptr
    → wptr + length name + 2 ≤ length enc.pkt_buf
    → length enc.pkt_buf ≤ 2 ^ 14
    → All (IsValid enc.pkt_buf wptr depth) enc.suffix
    → encode_name enc wptr (some name) ≡ ok (enc', some wptr')
    → All (IsValid enc'.pkt_buf wptr' (depth + 1)) enc'.suffix
encode_name-IsValid depth enc enc' wptr wptr' name d low fit small t run =
    let old = IsValid enc.pkt_buf wptr depth in
    let new = IsValid enc'.pkt_buf wptr' (depth + 1) in
    let usable = All-map old (Usable enc.pkt_buf wptr depth) enc.suffix (λ s v _. v) t in
    let e = encode_name_run depth enc enc' wptr wptr' name d low fit small usable run in
    let kept =
      All-map old new enc.suffix
        (λ s.
          IsValid-mono enc.pkt_buf enc'.pkt_buf wptr wptr' depth (depth + 1) s
            (omega (arith, e.ahead)) (omega arith) e.frame)
        t in
    subst (All new) (sym e.grows) (All-append new enc.suffix e.added kept e.valid)

-- With 12 bytes in front of it and room for it, any domain name is written, into a buffer of 16384
-- bytes at most. What stands there is a name on the wire, up to where the encoder goes on; its text
-- is the given one up to letter case, it takes one pointer more than the entries of the table at
-- most, and two bytes more than the name has characters at most.
pub encode_name-NameAt :
    (depth : ℕ) (enc : Enc) (wptr : ℕ) (name : Bytes)
    → IsDomain name
    → 12 ≤ wptr
    → wptr + length name + 2 ≤ length enc.pkt_buf
    → length enc.pkt_buf ≤ 2 ^ 14
    → All (Usable enc.pkt_buf wptr depth) enc.suffix
    → (enc' : Enc) × (wptr' jumps : ℕ) × (text : Bytes) × (encode_name enc wptr (some name)
        ≡ ok (enc', some wptr'))
      × NameAt (prefix enc'.pkt_buf wptr') wptr wptr' jumps text
      × (same_text text name ≡ true)
      × (jumps ≤ depth + 1)
      × (wptr' ≤ wptr + length name + 2)
encode_name-NameAt depth enc wptr name d low fit small t =
    let (enc', wptr', run, e) = encode_name-Encoded depth enc wptr name d low fit small t in
    (enc', wptr', e.jumps, e.text, run, e.stands, e.same, e.shallow, e.within)

-- When a domain name has been written behind 12 bytes, with room for it, into a buffer of 16384 bytes
-- at most, any packet that begins with what stands in the buffer up to the end of the name gives the
-- name back, up to letter case, to an output buffer that is longer than the name, and leaves the
-- decoder behind it. The table may hold entries of earlier names, as long as each leads to its name
-- and takes 16 pointers at most.
pub decode_name-encode_name :
    (depth : ℕ) (enc enc' : Enc) (wptr wptr' : ℕ) (name pkt : Bytes) (nlen : ℕ)
    → IsDomain name
    → 12 ≤ wptr
    → wptr + length name + 2 ≤ length enc.pkt_buf
    → length enc.pkt_buf ≤ 2 ^ 14
    → All (Usable enc.pkt_buf wptr depth) enc.suffix
    → depth ≤ 16
    → encode_name enc wptr (some name) ≡ ok (enc', some wptr')
    → All IsByte pkt
    → Extends (prefix enc'.pkt_buf wptr') (get_elem? pkt)
    → length name < nlen
    → (text : Bytes) × (decode_name pkt true nlen wptr
        ≡ ok (named wptr' (text ++ 0 ∷ []) (length text + 1)))
      × (same_text text name ≡ true)
decode_name-encode_name depth enc enc' wptr wptr' name pkt nlen d low fit small t deep run b ext
      room =
    let e = encode_name_run depth enc enc' wptr wptr' name d low fit small t run in
    (
      e.text,
      decode_name-NameAt pkt nlen b (NameAt_extend ext e.stands) (omega (arith, e.shallow))
          (omega (arith, same_text-length e.text name e.same)),
      e.same,
    )
