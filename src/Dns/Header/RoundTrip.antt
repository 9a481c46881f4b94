-- ===== src/Dns/Header/RoundTrip.antt =====
-- The stores of `encode_hdr` against `dns_hdr_decode`, both of src/dns_proto.c.
use c_dns_pkt.Prelude.{ℕ, ◌+◌, ◌^◌, ◌≤◌, ◌<◌, ◌≡◌, ◌++◌, length, ok, ltb, arith, false}
use c_dns_pkt.Mem.{Bytes, splice, At}
use c_dns_pkt.Mem.Laws.{write_at_lem, At-splice, length-splice}
use c_dns_pkt.Words.{u16_bytes, enc_u16}
use c_dns_pkt.Words.RoundTrip.{dec_u16-u16_bytes}
use c_dns_pkt.Dns.Header.{Header, dns_hdr_decode, put_hdr}

-- Every field fits its uint16_t.
pub record IsHeader (hdr : Header) : Type 0 where
  pub id : hdr.id < 2 ^ 16
  pub flags : hdr.flags < 2 ^ 16
  pub qd_count : hdr.qd_count < 2 ^ 16
  pub an_count : hdr.an_count < 2 ^ 16
  pub ns_count : hdr.ns_count < 2 ^ 16
  pub ar_count : hdr.ar_count < 2 ^ 16

-- The words of the header stand in a packet.
pub record HeaderAt (buf : Bytes) (hdr : Header) : Type 0 where
  pub long : 12 ≤ length buf
  pub id : At buf 0 (u16_bytes hdr.id)
  pub flags : At buf 2 (u16_bytes hdr.flags)
  pub qd_count : At buf 4 (u16_bytes hdr.qd_count)
  pub an_count : At buf 6 (u16_bytes hdr.an_count)
  pub ns_count : At buf 8 (u16_bytes hdr.ns_count)
  pub ar_count : At buf 10 (u16_bytes hdr.ar_count)

pub dns_hdr_decode-HeaderAt :
    (old hdr : Header) (buf : Bytes)
    → IsHeader hdr
    → HeaderAt buf hdr
    → dns_hdr_decode old buf ≡ ok (hdr, 0)
unfolding dns_hdr_decode
dns_hdr_decode-HeaderAt old hdr buf v a =
    let long : ltb (length buf) 12 ≡ false = ground (arith, a.long) in
    rw (
      long,
      dec_u16-u16_bytes buf 0 hdr.id v.id a.id,
      dec_u16-u16_bytes buf 2 hdr.flags v.flags a.flags,
      dec_u16-u16_bytes buf 4 hdr.qd_count v.qd_count a.qd_count,
      dec_u16-u16_bytes buf 6 hdr.an_count v.an_count a.an_count,
      dec_u16-u16_bytes buf 8 hdr.ns_count v.ns_count a.ns_count,
      dec_u16-u16_bytes buf 10 hdr.ar_count v.ar_count a.ar_count,
    )

enc_u16_lem :
    (buf : Bytes) (w v : ℕ)
    → w + 2 ≤ length buf
    → enc_u16 buf w v ≡ ok (splice w (u16_bytes v) buf, w + 2)
unfolding enc_u16
enc_u16_lem buf w v h = rw (write_at_lem w (u16_bytes v) buf h)

-- The twelve bytes of a header.
abbrev pub hdr_bytes : Header → Bytes
hdr_bytes hdr =
    u16_bytes hdr.id
    ++ (u16_bytes hdr.flags
        ++ (u16_bytes hdr.qd_count
            ++ (u16_bytes hdr.an_count ++ (u16_bytes hdr.ns_count ++ u16_bytes hdr.ar_count))))

-- The six stores are one write of the twelve bytes.
pub put_hdr_lem :
    (hdr : Header) (buf : Bytes)
    → 12 ≤ length buf
    → put_hdr hdr buf 0 ≡ ok (splice 0 (hdr_bytes hdr) buf, 12)
unfolding put_hdr splice
put_hdr_lem hdr buf h =
    let s0 = length-splice 0 (u16_bytes hdr.id) buf in
    let b1 = splice 0 (u16_bytes hdr.id) buf in
    let s1 = length-splice 2 (u16_bytes hdr.flags) b1 in
    let b2 = splice 2 (u16_bytes hdr.flags) b1 in
    let s2 = length-splice 4 (u16_bytes hdr.qd_count) b2 in
    let b3 = splice 4 (u16_bytes hdr.qd_count) b2 in
    let s3 = length-splice 6 (u16_bytes hdr.an_count) b3 in
    let b4 = splice 6 (u16_bytes hdr.an_count) b3 in
    let s4 = length-splice 8 (u16_bytes hdr.ns_count) b4 in
    let b5 = splice 8 (u16_bytes hdr.ns_count) b4 in
    rw (
      enc_u16_lem buf 0 hdr.id (omega arith),
      enc_u16_lem b1 2 hdr.flags (omega arith),
      enc_u16_lem b2 4 hdr.qd_count (omega arith),
      enc_u16_lem b3 6 hdr.an_count (omega arith),
      enc_u16_lem b4 8 hdr.ns_count (omega arith),
      enc_u16_lem b5 10 hdr.ar_count (omega arith),
    )

-- A packet that has the twelve bytes at its front.
pub hdr_bytes-HeaderAt :
    (hdr : Header) (buf : Bytes) → 12 ≤ length buf → At buf 0 (hdr_bytes hdr) → HeaderAt buf hdr
hdr_bytes-HeaderAt hdr buf h a = record {
  long = h;
  id = (a.0, (a.1.0, tt));
  flags = (a.1.1.0, (a.1.1.1.0, tt));
  qd_count = (a.1.1.1.1.0, (a.1.1.1.1.1.0, tt));
  an_count = (a.1.1.1.1.1.1.0, (a.1.1.1.1.1.1.1.0, tt));
  ns_count = (a.1.1.1.1.1.1.1.1.0, (a.1.1.1.1.1.1.1.1.1.0, tt));
  ar_count = (a.1.1.1.1.1.1.1.1.1.1.0, (a.1.1.1.1.1.1.1.1.1.1.1.0, tt));
}

-- For a header whose fields fit their 16 bits, the stores of `encode_hdr` at the front of a buffer
-- succeed where twelve bytes fit, and `dns_hdr_decode` reads the same header back, whatever the header
-- held that it fills.
pub dns_hdr_decode-put_hdr :
    (old hdr : Header) (buf : Bytes)
    → IsHeader hdr
    → 12 ≤ length buf
    → (buf' : Bytes) × (put_hdr hdr buf 0 ≡ ok (buf', 12)) × (dns_hdr_decode old buf' ≡ ok (hdr, 0))
dns_hdr_decode-put_hdr old hdr buf v h = (
  splice 0 (hdr_bytes hdr) buf,
  put_hdr_lem hdr buf h,
  dns_hdr_decode-HeaderAt old hdr _ v (
      hdr_bytes-HeaderAt hdr _ (omega (arith, length-splice 0 (hdr_bytes hdr) buf))
        (At-splice 0 (hdr_bytes hdr) buf h)),
)
