-- ===== src/Dns/Encode/Built.antt =====
-- A message with one question: the calls of src/dns_proto.c that build it (dns_msg_reset,
-- dns_msg_init, dns_add_qd), and what `encode_msg` makes of it.
use c_dns_pkt.Prelude.{
  ℕ, ◌^◌, ◌≤◌, ◌≡◌, ◌≢◌, refl, [], ◌∷◌, ◌++◌, length, All, some, ok, ℤ, pos, arith,
}
use c_dns_pkt.Mem.{Bytes, splice}
use c_dns_pkt.Mem.Laws.{length-splice}
use c_dns_pkt.Dns.Header.{Header, dns_hdr_init, dns_hdr_reset}
use c_dns_pkt.Dns.Header.RoundTrip.{hdr_bytes, put_hdr_lem}
use c_dns_pkt.Dns.Name.Encode.{Enc}
use c_dns_pkt.Dns.Name.Encode.Domain.{IsDomain}
use c_dns_pkt.Dns.Message.{Msg, dns_msg_reset, dns_msg_init, dns_add_qd, dns_add_qdn}
use c_dns_pkt.Dns.Message.Store.{msg_store_str_fits, c_str_stored}
use c_dns_pkt.Dns.Encode.{encode_hdr, encode_qd, encode_msg, dns_sect_enc, sync_hdr}
use c_dns_pkt.Dns.Encode.Space.{dns_enc_mkspace_lem}
use c_dns_pkt.Dns.Encode.Question.{QuestEncoded, dns_enc_quest-QuestEncoded}

-- The message that the calls build, whatever `msg` held, and the code of the last call.
abbrev pub build_query : Msg → ℕ → ℕ → Bytes → ℕ → ℕ → Msg × ℤ
build_query msg id flags name qtype qclass =
    dns_add_qd (dns_msg_init (dns_msg_reset msg) id flags) (some name) qtype qclass

abbrev pub query_msg : ℕ → ℕ → Bytes → ℕ → ℕ → Msg
query_msg id flags name qtype qclass = record {
  hdr = record { id = id; flags = flags; qd_count = 0; an_count = 0; ns_count = 0; ar_count = 0 };
  names = name ++ 0 ∷ [];
  qd = record { qname = some 0; qtype = qtype; qclass = qclass } ∷ [];
  an = [];
  ns = [];
  ar = [];
}

-- The header that stands in the packet of a query.
abbrev pub query_hdr : ℕ → ℕ → Header
query_hdr id flags = record {
  id = id;
  flags = flags;
  qd_count = 1;
  an_count = 0;
  ns_count = 0;
  ar_count = 0;
}

pub build_query_lem :
    (msg : Msg) (id flags : ℕ) (name : Bytes) (qtype qclass : ℕ)
    → length name ≤ 253
    → build_query msg id flags name qtype qclass ≡ (query_msg id flags name qtype qclass, pos 0)
unfolding dns_add_qd dns_add_qdn dns_msg_init dns_msg_reset dns_hdr_init dns_hdr_reset
build_query_lem msg id flags name qtype qclass short =
    let stored = msg_store_str_fits [] name short (omega arith) in rw (stored, stored)

-- The encoder at the front of a buffer.
abbrev pub at_front : Bytes → ℕ → Enc
at_front buf len = record { pkt_buf = buf; pkt_max = len; pkt_len = 0; suffix = [] }

-- The encoder behind the header.
abbrev pub behind_hdr : Bytes → ℕ → Header → Enc
behind_hdr buf len hdr = record {
  pkt_buf = splice 0 (hdr_bytes hdr) buf;
  pkt_max = len;
  pkt_len = 12;
  suffix = [];
}

encode_hdr_lem :
    (buf : Bytes) (len : ℕ) (hdr : Header)
    → 12 ≤ len
    → len ≤ length buf
    → length buf ≤ 2 ^ 14
    → encode_hdr (at_front buf len) hdr ≡ ok (behind_hdr buf len hdr, pos 0)
unfolding encode_hdr
encode_hdr_lem buf len hdr long holds small =
    rw
      (
        dns_enc_mkspace_lem (at_front buf len) 12 (omega arith) (omega arith),
        put_hdr_lem hdr buf (omega arith),
      )
      refl

module _ (id flags : ℕ) (name : Bytes) (qtype qclass : ℕ) (buf : Bytes) (len : ℕ) where
  pub query_encoded :
      IsDomain name
      → All (λ c. c ≢ 0) name
      → length name ≤ 253
      → 271 ≤ len
      → len ≤ length buf
      → length buf ≤ 2 ^ 14
      → (enc' : Enc) × (encode_msg (at_front buf len) (query_msg id flags name qtype qclass)
          ≡ ok (enc', pos 0))
        × QuestEncoded (behind_hdr buf len (query_hdr id flags)) enc' 0 name qtype qclass
  unfolding encode_msg encode_qd dns_sect_enc sync_hdr
  query_encoded d text short room holds small =
      let hdr = query_hdr id flags in
      let long = length-splice 0 (hdr_bytes hdr) buf in
      let (enc', run, q) =
        dns_enc_quest-QuestEncoded 0 (behind_hdr buf len hdr) name qtype qclass d short
          (omega arith) (omega arith) (omega arith) (omega arith) tt in
      (
        enc',
        rw (encode_hdr_lem buf len hdr (omega arith) holds small, c_str_stored [] name text, run)
            refl,
        q,
      )
