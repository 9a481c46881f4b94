-- ===== src/Dns/Message/Valid.antt =====
-- The invariant of struct dns_msg of src/dns_proto.h: its strings lie in the names store and its
-- lists within their bounds.
pub mod Contents
pub mod Section
pub mod Calls
pub mod Outcome
use c_dns_pkt.Prelude.{
  ℕ, zero, suc, ◌+◌, ◌≤◌, ◌<◌, ◌≡◌, refl, ◌⊎◌, List, [], ◌∷◌, ◌++◌, length, All, All-map,
  All-append, Option, none, some, Bool, true, false, ltb, leb, ◌==◌, if◌then◌else◌, ℤ, pos, negsuc,
  arith, Bool-cases, inl, inr, length-append,
}
use c_dns_pkt.Mem.{Bytes, Str, or_empty}
use c_dns_pkt.Dns.{dns_max_pdusize, dns_max_qd, dns_max_rr, dns_max_txt, dns_name_maxstr}
use c_dns_pkt.Dns.Message.{
  Stored, Rdata, a, ns, cname, soa, ptr, hinfo, mx, txt, aaaa, srv, opt, raw, Rr, Qd, Msg, Slot,
  Stores, msg_store_str, msg_store_name, store_or_fail, store_txt, store_rdata, dns_msg_an,
  dns_msg_ns, dns_msg_ar, dns_sect_add_rr, dns_add_rr, dns_add_qdn, dns_msg_reset,
}
use c_dns_pkt.Dns.Message.Store.{
  HasString, HasString-grow, Grows, Grows-refl, Grows-trans, msg_store_str-Grows,
}

pub All-concat {ℓ} :
    {A : Type ℓ} (P : A → Type 0) (xs : List A) (x : A) → All P xs → P x → All P (xs ++ x ∷ [])
All-concat P xs x h p = All-append P xs (x ∷ []) h (p, tt)

-- Every string of a record's data is NULL or a string of the store, and a TXT record lists 32
-- strings at most.
abbrev pub RdataValid : Bytes → Rdata Stored → Type 0
RdataValid names (a addr) = Unit {0}
RdataValid names (ns s) = HasString names s
RdataValid names (cname s) = HasString names s
RdataValid names (soa mname rname serial refresh retry expire min_ttl) =
    HasString names mname × HasString names rname
RdataValid names (ptr s) = HasString names s
RdataValid names (hinfo cpu_str os_str) = HasString names cpu_str × HasString names os_str
RdataValid names (mx pref s) = HasString names s
RdataValid names (txt strs) = All (HasString names) strs × (length strs ≤ dns_max_txt)
RdataValid names (aaaa addr) = Unit {0}
RdataValid names (srv prior weight port s) = HasString names s
RdataValid names (opt udp_size ext_rcode edns_ver do_bit z_bits) = Unit {0}
RdataValid names (raw type) = Unit {0}

abbrev pub RrValid : Bytes → Rr Stored → Type 0
RrValid names rr = HasString names rr.name × RdataValid names rr.rdata

pub record IsValid (msg : Msg) : Type 0 where
  pub store : length msg.names ≤ dns_max_pdusize
  pub qd_len : length msg.qd ≤ dns_max_qd
  pub an_len : length msg.an ≤ dns_max_rr
  pub ns_len : length msg.ns ≤ dns_max_rr
  pub ar_len : length msg.ar ≤ dns_max_rr
  pub qd : All (λ q. HasString msg.names q.qname) msg.qd
  pub an : All (RrValid msg.names) msg.an
  pub ns : All (RrValid msg.names) msg.ns
  pub ar : All (RrValid msg.names) msg.ar

module _ (names names' : Bytes) (g : Grows names names') where
  RdataValid-grow : (r : Rdata Stored) → RdataValid names r → RdataValid names' r
  RdataValid-grow (a addr) h = tt
  RdataValid-grow (ns s) h = HasString-grow names names' s g h
  RdataValid-grow (cname s) h = HasString-grow names names' s g h
  RdataValid-grow (soa mname rname _ _ _ _ _) (h, k) =
      (HasString-grow names names' mname g h, HasString-grow names names' rname g k)
  RdataValid-grow (ptr s) h = HasString-grow names names' s g h
  RdataValid-grow (hinfo c o) (h, k) =
      (HasString-grow names names' c g h, HasString-grow names names' o g k)
  RdataValid-grow (mx pref s) h = HasString-grow names names' s g h
  RdataValid-grow (txt strs) (h, k) = (
    All-map (HasString names) (HasString names') strs (λ s. HasString-grow names names' s g) h,
    k,
  )
  RdataValid-grow (aaaa addr) h = tt
  RdataValid-grow (srv _ _ _ s) h = HasString-grow names names' s g h
  RdataValid-grow (opt _ _ _ _ _) h = tt
  RdataValid-grow (raw _) h = tt

  pub section_grow : (rs : List (Rr Stored)) → All (RrValid names) rs → All (RrValid names') rs
  section_grow rs =
      All-map (RrValid names) (RrValid names') rs
        (λ r (h, k). (HasString-grow names names' r.name g h, RdataValid-grow r.rdata k))

-- What stays valid of a message whose names store has grown.
pub grown-IsValid :
    {msg : Msg} (names' : Bytes)
    → Grows msg.names names'
    → IsValid msg
    → IsValid (record msg { names = names' })
grown-IsValid {msg} names' g v = record {
  store = g.bounded v.store;
  qd_len = v.qd_len;
  an_len = v.an_len;
  ns_len = v.ns_len;
  ar_len = v.ar_len;
  qd =
      All-map (λ q. HasString msg.names q.qname) (λ q. HasString names' q.qname) msg.qd
        (λ q. HasString-grow msg.names names' q.qname g) v.qd;
  an = section_grow msg.names names' g msg.an v.an;
  ns = section_grow msg.names names' g msg.ns v.ns;
  ar = section_grow msg.names names' g msg.ar v.ar;
}

-- A reset message is valid, whatever it held.
pub dns_msg_reset-IsValid : (msg : Msg) → IsValid (dns_msg_reset msg)
unfolding dns_msg_reset
dns_msg_reset-IsValid msg = record {
  store = omega arith;
  qd_len = omega arith;
  an_len = omega arith;
  ns_len = omega arith;
  ar_len = omega arith;
  qd = tt;
  an = tt;
  ns = tt;
  ar = tt;
}
