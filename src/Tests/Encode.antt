-- ===== src/Tests/Encode.antt =====
-- Messages encoded on concrete inputs.
use c_dns_pkt.Prelude.{
  ℕ, zero, suc, ◌+◌, ◌≤◌, ◌≡◌, ◌≢◌, refl, Bool, true, ◌&&◌, [], ◌∷◌, length, All, fault, some, ok,
  ltb, pos, arith,
}
use c_dns_pkt.Mem.{Bytes}
use c_dns_pkt.Dns.Encode.Faults.{encode_rdata-opt, encode_rdata-srv_fault}
use c_dns_pkt.Dns.Message.{opt, srv}
use c_dns_pkt.Dns.Encode.{encode_rdata}
use c_dns_pkt.Dns.Encode.Question.{QuestEncoded, dns_enc_quest-QuestEncoded}
use c_dns_pkt.Dns.Name.Encode.{Enc}
use c_dns_pkt.Dns.Name.Encode.Domain.{IsDomain, last, dotted}
use c_dns_pkt.Dns.Message.{Msg}
use c_dns_pkt.Dns.Encode.{dns_enc_quest, dns_msg_encode}
use c_dns_pkt.Dns.Encode.Built.{build_query}
use c_dns_pkt.Dns.Encode.Query.{dns_msg_encode-build_query}

abbrev zeros : ℕ → Bytes
zeros zero = []
zeros (suc n) = 0 ∷ zeros n

abbrev room : Bytes
room = zeros 271

abbrev old_msg : Msg
old_msg = record {
  hdr = record { id = 7; flags = 7; qd_count = 7; an_count = 7; ns_count = 7; ar_count = 7 };
  names = 7 ∷ [];
  qd = [];
  an = [];
  ns = [];
  ar = [];
}

abbrev a_b : Bytes
a_b = b'a' ∷ b'.' ∷ b'b' ∷ []

a_b-IsDomain : IsDomain a_b
a_b-IsDomain =
    dotted (b'a' ∷ [])
      (record { ne_nil = λ e. cc; short = omega arith; no_dot = (omega arith, tt) })
      (last (record { ne_nil = λ e. cc; short = omega arith; no_dot = (omega arith, tt) }))
      (λ e. cc) refl

a_b_text : All (λ c. c ≢ 0) a_b
a_b_text = (omega arith, (omega arith, (omega arith, tt)))

dns_msg_encode-build_query_example :
    (msg' : Msg) × (buf' : Bytes) × (n : ℕ) × (dns_msg_encode
        (build_query old_msg 0x1234 0x0100 a_b 1 1).0
        room
        271
      ≡ ok (msg', buf', pos n))
    × (17 ≤ n)
    × (n ≤ length a_b + 18)
dns_msg_encode-build_query_example =
    dns_msg_encode-build_query old_msg 0x1234 0x0100 a_b 1 1 room 271 a_b-IsDomain a_b_text
      (omega arith) (omega arith) (omega arith) (omega arith)

abbrev packet : Bytes
packet =
    0x12 ∷ 0x34 ∷ 1 ∷ 0 ∷ 0 ∷ 1 ∷ 0 ∷ 0 ∷ 0 ∷ 0 ∷ 0 ∷ 0 ∷ 1 ∷ b'a' ∷ 1 ∷ b'b' ∷ 0 ∷ 0 ∷ 1 ∷ 0 ∷ 1
    ∷ []

abbrev query : Msg
query = record {
  hdr = record {
    id = 0x1234;
    flags = 0x0100;
    qd_count = 1;
    an_count = 0;
    ns_count = 0;
    ar_count = 0;
  };
  names = b'a' ∷ b'.' ∷ b'b' ∷ 0 ∷ [];
  qd = record { qname = some 0; qtype = 1; qclass = 1 } ∷ [];
  an = [];
  ns = [];
  ar = [];
}

abbrev are_bytes : Bytes → Bool
are_bytes [] = true
are_bytes (b ∷ bs) = ltb b 256 && are_bytes bs

abbrev after_hdr : Enc
after_hdr = record { pkt_buf = room; pkt_max = 271; pkt_len = 12; suffix = [] }

dns_enc_quest-QuestEncoded_example :
    (enc' : Enc) × (dns_enc_quest after_hdr (record { qname = some a_b; qtype = 1; qclass = 1 })
      ≡ ok (enc', pos 0))
    × QuestEncoded after_hdr enc' 0 a_b 1 1
dns_enc_quest-QuestEncoded_example =
    dns_enc_quest-QuestEncoded 0 after_hdr a_b 1 1 a_b-IsDomain (omega arith) (omega arith)
      (omega arith) (omega arith) (omega arith) tt

abbrev after_rr : Enc
after_rr = record { pkt_buf = zeros 30; pkt_max = 30; pkt_len = 28; suffix = [] }

encode_rdata-srv_fault_example : encode_rdata after_rr 26 (srv 1 2 3 (some a_b)) ≡ fault
encode_rdata-srv_fault_example =
    encode_rdata-srv_fault after_rr 26 1 2 3 (some a_b) (omega arith) (omega arith) (omega arith)
      (omega arith)

encode_rdata-opt_example :
    encode_rdata after_rr 26 (opt 1232 1 2 1 5) ≡ encode_rdata after_rr 26 (opt 1232 0 0 1 5)
encode_rdata-opt_example =
    encode_rdata-opt after_rr 26 1232 1 2 0 0 1 5 (omega arith) (omega arith) (omega arith)
      (omega arith) (omega arith)
