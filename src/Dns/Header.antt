-- ===== src/Dns/Header.antt =====
-- The message header of src/dns_proto.h and src/dns_proto.c.
pub mod RoundTrip
use c_dns_pkt.Prelude.{ℕ, ◌+◌, Bool, Exec, ok, ◌>>=◌, ltb, if◌then◌else◌, [], ◌∷◌, length}
use c_dns_pkt.Mem.{Bytes}
use c_dns_pkt.Words.{enc_u16, dec_u16}
use c_dns_pkt.Dns.{dns_hdr_len, dns_ehdrlen}

-- struct dns_hdr
pub record Header : Type 0 where
  pub id : ℕ
  pub flags : ℕ
  pub qd_count : ℕ
  pub an_count : ℕ
  pub ns_count : ℕ
  pub ar_count : ℕ

unfoldable pub dns_hdr_reset : Header → Header
dns_hdr_reset hdr = record hdr {
  id = 0;
  flags = 0;
  qd_count = 0;
  an_count = 0;
  ns_count = 0;
  ar_count = 0;
}

unfoldable pub dns_hdr_init : Header → ℕ → ℕ → Header
dns_hdr_init hdr id flags = record hdr { id = id; flags = flags }

-- The header after the call, and the code that is returned.
unfoldable pub dns_hdr_decode : Header → Bytes → Exec (Header × ℕ)
dns_hdr_decode hdr buf = if ltb (length buf) dns_hdr_len then ok (hdr, dns_ehdrlen) else (do
  id ← dec_u16 buf 0
  flags ← dec_u16 buf 2
  qd_count ← dec_u16 buf 4
  an_count ← dec_u16 buf 6
  ns_count ← dec_u16 buf 8
  ar_count ← dec_u16 buf 10
  ok (
    record {
      id = id;
      flags = flags;
      qd_count = qd_count;
      an_count = an_count;
      ns_count = ns_count;
      ar_count = ar_count;
    },
    0,
  ))

-- The stores of `encode_hdr`, from `wptr` on.
unfoldable pub put_hdr : Header → Bytes → ℕ → Exec (Bytes × ℕ)
put_hdr hdr buf wptr = do
  (buf, wptr) ← enc_u16 buf wptr hdr.id
  (buf, wptr) ← enc_u16 buf wptr hdr.flags
  (buf, wptr) ← enc_u16 buf wptr hdr.qd_count
  (buf, wptr) ← enc_u16 buf wptr hdr.an_count
  (buf, wptr) ← enc_u16 buf wptr hdr.ns_count
  enc_u16 buf wptr hdr.ar_count
