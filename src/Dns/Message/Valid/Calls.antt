-- ===== src/Dns/Message/Valid/Calls.antt =====
-- `dns_add_rr` and `dns_add_qdn` of src/dns_proto.c and the invariant of a message.
use c_dns_pkt.Prelude.{
  ℕ, ◌≤◌, ◌<◌, [], ◌∷◌, ◌++◌, length, All, Option, none, some, leb, ◌==◌, ℤ, pos, negsuc, arith,
  Bool-cases, inl, inr, length-append,
}
use c_dns_pkt.Mem.{Bytes, Str}
use c_dns_pkt.Dns.{dns_max_qd, dns_max_txt}
use c_dns_pkt.Dns.Message.{
  Stored, Rr, Msg, Slot, msg_store_str, dns_msg_an, dns_msg_ns, dns_msg_ar, dns_add_rr, dns_add_qdn,
}
use c_dns_pkt.Dns.Message.Store.{HasString, Grows, msg_store_str-Grows}
use c_dns_pkt.Dns.Message.Valid.{IsValid, All-concat, grown-IsValid}
use c_dns_pkt.Dns.Message.Valid.Section.{dns_sect_add_rr_valid}

-- On a valid message, whatever section is named, whatever the record is and whether or not the call
-- succeeds, `dns_add_rr` leaves a valid message. The strings that the free slot still lists are to be
-- 32 at most and strings of the store.
pub dns_add_rr-IsValid :
    (msg : Msg) (sc : ℕ) (slot : Slot) (rr : Option (Rr Str))
    → IsValid msg
    → All (HasString msg.names) slot.strs
    → length slot.strs ≤ dns_max_txt
    → IsValid (dns_add_rr msg sc slot rr).0
unfolding dns_add_rr
dns_add_rr-IsValid msg sc slot rr v h k = elim (Bool-cases (sc == dns_msg_an)) [
  | inl e ↦
      let r = dns_sect_add_rr_valid msg.names msg.an slot rr v.an_len v.an h k in
      let g = grown-IsValid _ r.grows v in
      rw e (record {
        store = g.store;
        qd_len = g.qd_len;
        an_len = r.len;
        ns_len = g.ns_len;
        ar_len = g.ar_len;
        qd = g.qd;
        an = r.valid;
        ns = g.ns;
        ar = g.ar;
      })
  | inr e ↦ elim (Bool-cases (sc == dns_msg_ns)) [
    | inl f ↦
        let r = dns_sect_add_rr_valid msg.names msg.ns slot rr v.ns_len v.ns h k in
        let g = grown-IsValid _ r.grows v in
        rw (e, f)
          (record {
            store = g.store;
            qd_len = g.qd_len;
            an_len = g.an_len;
            ns_len = r.len;
            ar_len = g.ar_len;
            qd = g.qd;
            an = g.an;
            ns = r.valid;
            ar = g.ar;
          })
    | inr f ↦ elim (Bool-cases (sc == dns_msg_ar)) [
      | inl d ↦
          let r = dns_sect_add_rr_valid msg.names msg.ar slot rr v.ar_len v.ar h k in
          let g = grown-IsValid _ r.grows v in
          rw (e, f, d)
            (record {
              store = g.store;
              qd_len = g.qd_len;
              an_len = g.an_len;
              ns_len = g.ns_len;
              ar_len = r.len;
              qd = g.qd;
              an = g.an;
              ns = g.ns;
              ar = r.valid;
            })
      | inr d ↦ rw (e, f, d) v
    ]
  ]
]

-- On a valid message, `dns_add_qdn` leaves a valid message, whether or not it succeeds.
pub dns_add_qdn-IsValid :
    (msg : Msg) (qname : Bytes) (qtype qclass : ℕ)
    → IsValid msg
    → IsValid (dns_add_qdn msg qname qtype qclass).0
unfolding dns_add_qdn
dns_add_qdn-IsValid msg qname qtype qclass v = elim (Bool-cases (leb dns_max_qd (length msg.qd))) [
  | inl full ↦ rw full v
  | inr room ↦
      rw room (
        stored (msg_store_str msg.names qname) (msg_store_str-Grows msg.names qname) (ground arith))
]
  where
    stored :
        (r : Bytes × Stored)
        → Grows msg.names r.0 × HasString r.0 r.1
        → length msg.qd < dns_max_qd
        → IsValid (
            let res : Msg × ℤ = elim r.1 [
              | none ↦ (record msg { names = r.0 }, negsuc 0)
              | some i ↦ (
                record msg {
                  names = r.0;
                  qd = msg.qd ++ record { qname = some i; qtype = qtype; qclass = qclass } ∷ [];
                },
                pos 0,
              )
            ] in
            res.0)
    stored (n, none) (g, p) room = grown-IsValid n g v
    stored (n, some i) (g, p) room =
        let w = grown-IsValid n g v in
        record {
          store = w.store;
          qd_len = omega (
            arith,
            length-append msg.qd (record { qname = some i; qtype = qtype; qclass = qclass } ∷ []),
          );
          an_len = w.an_len;
          ns_len = w.ns_len;
          ar_len = w.ar_len;
          qd = All-concat (λ q. HasString n q.qname) msg.qd _ w.qd p;
          an = w.an;
          ns = w.ns;
          ar = w.ar;
        }
