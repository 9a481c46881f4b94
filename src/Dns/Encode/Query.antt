-- ===== src/Dns/Encode/Query.antt =====
-- A message with one question, from the calls that build it (dns_msg_reset, dns_msg_init, dns_add_qd)
-- through `dns_msg_encode` of src/dns_proto.c.
use c_dns_pkt.Prelude.{ℕ, ◌+◌, ◌^◌, ◌≤◌, ◌≡◌, ◌≢◌, true, [], ◌∷◌, ◌++◌, length, All, ok, pos, arith}
use c_dns_pkt.Mem.{Bytes}
use c_dns_pkt.Words.{dec_u16}
use c_dns_pkt.Dns.Header.{Header, dns_hdr_decode}
use c_dns_pkt.Dns.Name.Decode.{named, decode_name}
use c_dns_pkt.Dns.Name.Encode.{Enc, same_text}
use c_dns_pkt.Dns.Name.Encode.Domain.{IsDomain}
use c_dns_pkt.Dns.Message.{Msg}
use c_dns_pkt.Dns.Encode.{sync_hdr, dns_msg_encode}
use c_dns_pkt.Dns.Encode.Question.{QuestEncoded}
use c_dns_pkt.Dns.Encode.Built.{
  build_query, query_msg, query_hdr, build_query_lem, behind_hdr, query_encoded,
}

-- What the decoders read of a packet: the header of a query, its name up to letter case, the type and
-- the class, in `n` bytes.
pub record QueryAt (pkt : Bytes) (id flags : ℕ) (name : Bytes) (qtype qclass n nlen : ℕ)
    : Type 0 where
  pub mid : ℕ
  pub text : Bytes
  pub header : (old : Header) → dns_hdr_decode old pkt ≡ ok (query_hdr id flags, 0)
  pub qname : decode_name pkt true nlen 12 ≡ ok (named mid (text ++ 0 ∷ []) (length text + 1))
  pub same : same_text text name ≡ true
  pub type : dec_u16 pkt mid ≡ ok qtype
  pub class : dec_u16 pkt (mid + 2) ≡ ok qclass
  pub ends : n ≡ mid + 4

module _ (id flags : ℕ) (name : Bytes) (qtype qclass : ℕ) (buf : Bytes) (len : ℕ) (enc : Enc) where
  abbrev behind : Enc
  behind = behind_hdr buf len (query_hdr id flags)

-- The message that `dns_msg_encode` leaves: its header counts the question.
abbrev synced : ℕ → ℕ → Bytes → ℕ → ℕ → Msg
synced id flags name qtype qclass = record (query_msg id flags name qtype qclass) {
  hdr = query_hdr id flags;
}

encoded_query :
    (msg : Msg) (id flags : ℕ) (name : Bytes) (qtype qclass : ℕ) (buf : Bytes) (len : ℕ)
    → IsDomain name
    → All (λ c. c ≢ 0) name
    → length name ≤ 253
    → 271 ≤ len
    → len ≤ length buf
    → length buf ≤ 2 ^ 14
    → (enc : Enc) × (dns_msg_encode (build_query msg id flags name qtype qclass).0 buf len
        ≡ ok (synced id flags name qtype qclass, enc.pkt_buf, pos enc.pkt_len))
      × QuestEncoded (behind_hdr buf len (query_hdr id flags)) enc 0 name qtype qclass
unfolding dns_msg_encode sync_hdr
encoded_query msg id flags name qtype qclass buf len d text short room holds small =
    let built = build_query_lem msg id flags name qtype qclass short in
    let (enc, run, q) =
      query_encoded id flags name qtype qclass buf len d text short room holds small in
    (enc, rw (built, run), q)

-- A query is encoded. For any message, a domain name of at most 253 characters without a zero byte,
-- and space for 271 bytes in a buffer of at most 16384 bytes, `dns_msg_encode` on what the calls
-- build returns a length of 17 bytes at least, and of 18 bytes more than the name has characters at
-- most.
pub dns_msg_encode-build_query :
    (msg : Msg) (id flags : ℕ) (name : Bytes) (qtype qclass : ℕ) (buf : Bytes) (len : ℕ)
    → IsDomain name
    → All (λ c. c ≢ 0) name
    → length name ≤ 253
    → 271 ≤ len
    → len ≤ length buf
    → length buf ≤ 2 ^ 14
    → (msg' : Msg) × (buf' : Bytes) × (n : ℕ) × (dns_msg_encode
          (build_query msg id flags name qtype qclass).0
          buf
          len
        ≡ ok (msg', buf', pos n))
      × (17 ≤ n)
      × (n ≤ length name + 18)
dns_msg_encode-build_query msg id flags name qtype qclass buf len d text short room holds small =
    let (enc, run, q) =
      encoded_query msg id flags name qtype qclass buf len d text short room holds small in
    (
      synced id flags name qtype qclass,
      enc.pkt_buf,
      enc.pkt_len,
      run,
      omega (arith, q.ends, q.ahead),
      omega (arith, q.ends, q.within),
    )
