-- ===== src/Dns/Message.antt =====
-- struct dns_msg of src/dns_proto.h: records, the names store, and the calls of src/dns_proto.c that
-- build a message. A string of a message is the index of its first byte in the names store; a
-- string of a caller is its bytes up to the zero byte; `none` is NULL.
pub mod Store
pub mod Valid
use c_dns_pkt.Prelude.{
  ℕ, zero, suc, ◌+◌, Bool, List, [], ◌∷◌, ◌++◌, length, Option, none, some, Exec, ok, ◌>>=◌, ltb,
  leb, ◌==◌, ◌%◌, ◌^◌, ℤ, pos, negsuc, if◌then◌else◌,
}
use c_dns_pkt.Mem.{Bytes, Str, or_empty}
use c_dns_pkt.Dns.{dns_name_maxstr, dns_max_pdusize, dns_max_txt, dns_max_rr, dns_max_qd}
use c_dns_pkt.Dns.Header.{Header, dns_hdr_reset, dns_hdr_init}

-- The union `rdata` of struct dns_rr with the type that selects its member, and strings of type `S`.
-- `raw` is a record of any other type, whose data no code uses. A TXT record lists its first
-- `num_str` strings.
pub data Rdata (S : Type 0) : Type 0 where
  a : Bytes → Rdata S
  ns : S → Rdata S
  cname : S → Rdata S
  soa : (mname rname : S) (serial refresh retry expire min_ttl : ℕ) → Rdata S
  ptr : S → Rdata S
  hinfo : (cpu_str os_str : S) → Rdata S
  mx : (pref : ℕ) → S → Rdata S
  txt : List S → Rdata S
  aaaa : Bytes → Rdata S
  srv : (prior weight port : ℕ) → S → Rdata S
  opt : (udp_size ext_rcode edns_ver do_bit z_bits : ℕ) → Rdata S
  raw : (type : ℕ) → Rdata S

-- The DNS_TYPE_* numbers.
abbrev pub rr_type : {S : Type 0} → Rdata S → ℕ
rr_type (a addr) = 1
rr_type (ns name) = 2
rr_type (cname name) = 5
rr_type (soa mname rname serial refresh retry expire min_ttl) = 6
rr_type (ptr name) = 12
rr_type (hinfo cpu_str os_str) = 13
rr_type (mx pref name) = 15
rr_type (txt strs) = 16
rr_type (aaaa addr) = 28
rr_type (srv prior weight port name) = 33
rr_type (opt udp_size ext_rcode edns_ver do_bit z_bits) = 41
rr_type (raw type) = type

-- struct dns_rr. Its `type` is `rr_type rdata`.
pub record Rr (S : Type 0) : Type 0 where
  pub name : S
  pub class : ℕ
  pub ttl : ℕ
  pub rdlen : ℕ
  pub rdata : Rdata S

-- struct dns_qd
pub record Qd (S : Type 0) : Type 0 where
  pub qname : S
  pub qtype : ℕ
  pub qclass : ℕ

abbrev pub Stored : Type 0
Stored = Option ℕ

-- struct dns_msg. `names` holds the `names_len` bytes in use; each list holds the entries in use.
pub record Msg : Type 0 where
  pub hdr : Header
  pub names : Bytes
  pub qd : List (Qd Stored)
  pub an : List (Rr Stored)
  pub ns : List (Rr Stored)
  pub ar : List (Rr Stored)

unfoldable pub dns_msg_reset : Msg → Msg
dns_msg_reset msg = record {
  hdr = dns_hdr_reset msg.hdr;
  names = [];
  qd = [];
  an = [];
  ns = [];
  ar = [];
}

unfoldable pub dns_msg_init : Msg → ℕ → ℕ → Msg
dns_msg_init msg id flags = record msg { hdr = dns_hdr_init msg.hdr id flags }

-- The names store after the call, and the string that is returned. `str` is what `len` bytes of
-- the argument hold; errno is not modelled.
unfoldable pub msg_store_str : Bytes → Bytes → Bytes × Stored
msg_store_str names str =
    if ltb dns_name_maxstr (length str)
    then (names, none)
    else if ltb dns_max_pdusize (length names + length str + 1)
    then (names, none)
    else (names ++ str ++ 0 ∷ [], some (length names))

-- A null pointer has length 0.
unfoldable pub msg_store_name : Bytes → Str → Bytes × Stored
msg_store_name names name = msg_store_str names (or_empty name)

-- The C string at an index of the names store.
abbrev pub up_to_zero : Bytes → Bytes
up_to_zero [] = []
up_to_zero (zero ∷ bs) = []
up_to_zero (suc c ∷ bs) = suc c ∷ up_to_zero bs

-- The result of a call that may return -1 with the names store grown already.
abbrev pub Stores : Type 0 → Type 0
Stores A = Bytes × Option A

-- `x = msg_store_name(msg, name); if (!x) return -1;` and what follows.
abbrev pub store_or_fail {ℓ} :
    {A : Type ℓ} → Bytes → Str → (Bytes → ℕ → Bytes × Option A) → Bytes × Option A
store_or_fail names name rest =
    let (names', p) = msg_store_name names name in
    elim p [ none ↦ (names', none) | some i ↦ rest names' i ]

-- The loop over the strings of a TXT record, from the strings that the record lists already.
unfoldable pub store_txt : Bytes → List Stored → List Str → Stores (Rdata Stored)
store_txt names strs [] = (names, some (txt strs))
store_txt names strs (s ∷ rest) =
    let next = λ (names' : Bytes) (i : ℕ). store_txt names' (strs ++ some i ∷ []) rest in
    if leb dns_max_txt (length strs) then (names, none) else store_or_fail names s next

-- What the bytes of a free record hold where the code leaves them: the string pointers that
-- `num_str` counts, `z_bits` and `rdlen`.
pub record Slot : Type 0 where
  pub strs : List Stored
  pub z_bits : ℕ
  pub rdlen : ℕ

-- The switch of `dns_sect_add_rr`. The second string of an SOA record and both of a
-- HINFO record are stored without a test.
unfoldable pub store_rdata : Bytes → Slot → Rdata Str → Stores (Rdata Stored)
store_rdata names slot (a addr) = (names, some (a addr))
store_rdata names slot (ns s) = store_or_fail names s (λ n i. (n, some (ns (some i))))
store_rdata names slot (cname s) = store_or_fail names s (λ n i. (n, some (cname (some i))))
store_rdata names slot (soa mname rname serial refresh retry expire min_ttl) =
    store_or_fail names mname (λ n i.
      let (n', r) = msg_store_name n rname in
      (n', some (soa (some i) r serial refresh retry expire min_ttl)))
store_rdata names slot (ptr s) = store_or_fail names s (λ n i. (n, some (ptr (some i))))
store_rdata names slot (hinfo cpu_str os_str) =
    let (n, c) = msg_store_name names cpu_str in
    let (n', o) = msg_store_name n os_str in (n', some (hinfo c o))
store_rdata names slot (mx pref s) = store_or_fail names s (λ n i. (n, some (mx pref (some i))))
store_rdata names slot (txt strs) = store_txt names slot.strs strs
store_rdata names slot (aaaa addr) = (names, some (aaaa addr))
store_rdata names slot (srv prior weight port s) =
    store_or_fail names s (λ n i. (n, some (srv prior weight port (some i))))
store_rdata names slot (opt udp_size ext_rcode edns_ver do_bit z_bits) =
    (names, some (opt udp_size ext_rcode edns_ver do_bit slot.z_bits))
store_rdata names slot (raw type) = (names, some (raw type))

-- `dns_sect_add_rr` on the list of a section: the names store, the section and the code returned.
unfoldable pub dns_sect_add_rr :
    Bytes → List (Rr Stored) → Slot → Option (Rr Str) → Bytes × List (Rr Stored) × ℤ
unfolding store_rdata
dns_sect_add_rr names sect slot none = (names, sect, pos 0)
dns_sect_add_rr names sect slot (some src) =
    if leb dns_max_rr (length sect)
    then (names, sect, negsuc 0)
    else let (names', p) = msg_store_name names src.name in
      elim p [
        | none ↦ (names', sect, negsuc 0)
        | some i ↦
            let (names'', r) = store_rdata names' slot src.rdata in
            elim r [
              | none ↦ (names'', sect, negsuc 0)
              | some rdata ↦ (
                names'',
                sect
                    ++ record {
                      name = some i;
                      class = src.class;
                      ttl = src.ttl;
                      rdlen = slot.rdlen;
                      rdata = rdata;
                    }
                      ∷ [],
                pos 0,
              )
            ]
      ]

-- DNS_MSG_AN, DNS_MSG_NS and DNS_MSG_AR
abbrev pub dns_msg_an : ℕ
dns_msg_an = 1

abbrev pub dns_msg_ns : ℕ
dns_msg_ns = 2

abbrev pub dns_msg_ar : ℕ
dns_msg_ar = 3

unfoldable pub dns_add_rr : Msg → ℕ → Slot → Option (Rr Str) → Msg × ℤ
dns_add_rr msg sc slot rr =
    if sc == dns_msg_an
    then (let (names, sect, rc) = dns_sect_add_rr msg.names msg.an slot rr in
        (record msg { names = names; an = sect }, rc))
    else if sc == dns_msg_ns
    then (let (names, sect, rc) = dns_sect_add_rr msg.names msg.ns slot rr in
        (record msg { names = names; ns = sect }, rc))
    else if sc == dns_msg_ar
    then (let (names, sect, rc) = dns_sect_add_rr msg.names msg.ar slot rr in
        (record msg { names = names; ar = sect }, rc))
    else (msg, negsuc 0)

-- The question is stored with its length given; `qname` is the bytes that the length covers.
unfoldable pub dns_add_qdn : Msg → Bytes → ℕ → ℕ → Msg × ℤ
dns_add_qdn msg qname qtype qclass =
    if leb dns_max_qd (length msg.qd)
    then (msg, negsuc 0)
    else let (names, p) = msg_store_str msg.names qname in
      elim p [
        | none ↦ (record msg { names = names }, negsuc 0)
        | some i ↦ (
          record msg {
            names = names;
            qd = msg.qd ++ record { qname = some i; qtype = qtype; qclass = qclass } ∷ [];
          },
          pos 0,
        )
      ]

unfoldable pub dns_add_qd : Msg → Str → ℕ → ℕ → Msg × ℤ
dns_add_qd msg qname qtype qclass = dns_add_qdn msg (or_empty qname) qtype qclass

-- The sum of the three counts, in a uint32_t.
unfoldable pub dns_cnt_rr : Msg → ℕ
dns_cnt_rr msg = (length msg.an + length msg.ns + length msg.ar) % 2 ^ 32

abbrev first_or : List (Rr Stored) → Option (Rr Stored) → Option (Rr Stored)
first_or [] other = other
first_or (r ∷ rs) other = some r

-- The first record, of the first section that has one.
unfoldable pub dns_get_rr : Msg → Option (Rr Stored)
dns_get_rr msg = first_or msg.an (first_or msg.ns (first_or msg.ar none))
