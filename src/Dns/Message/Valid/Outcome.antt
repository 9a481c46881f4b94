-- ===== src/Dns/Message/Valid/Outcome.antt =====
-- What `dns_sect_add_rr` of src/dns_proto.c adds to a section.
use c_dns_pkt.Prelude.{
  ℕ, ◌≤◌, ◌≡◌, ◌≢◌, ◌⊎◌, inl, inr, refl, ◌∙◌, List, [], ◌∷◌, ◌++◌, length, All, All-map, some, none,
  leb, Bool-cases, ℤ, pos, negsuc,
}
use c_dns_pkt.Mem.{Bytes, Str, or_empty}
use c_dns_pkt.Dns.{dns_max_rr, dns_max_txt}
use c_dns_pkt.Dns.Message.{
  Stored, Rdata, a, ns, cname, soa, ptr, hinfo, mx, txt, aaaa, srv, opt, raw, Rr, Slot, Stores,
  rr_type, msg_store_name, store_or_fail, store_txt, store_rdata, dns_sect_add_rr,
}
use c_dns_pkt.Dns.Message.Store.{
  HasString, HasString-grow, Grows, c_str, c_str-Grows, c_str-msg_store_str,
}
use c_dns_pkt.Dns.Message.Valid.Contents.{StoresValid, second, store_rdata_valid}

-- The data that is stored, if any, has the given type.
abbrev HasType : ℕ → Stores (Rdata Stored) → Type 0
HasType t (names, none) = Unit {0}
HasType t (names, some r) = rr_type r ≡ t

store_or_fail-HasType :
    (t : ℕ) (names : Bytes) (s : Str) (next : Bytes → ℕ → Stores (Rdata Stored))
    → ((n : Bytes) (i : ℕ) → HasType t (next n i))
    → HasType t (store_or_fail names s next)
store_or_fail-HasType t names s next h = of_stored (msg_store_name names s)
  where
    of_stored :
        (r : Bytes × Stored) → HasType t (elim r.1 [ none ↦ (r.0, none) | some i ↦ next r.0 i ])
    of_stored (n, none) = tt
    of_stored (n, some i) = h n i

store_txt-HasType :
    (names : Bytes) (strs : List Stored) (src : List Str) → HasType 16 (store_txt names strs src)
unfolding store_txt
store_txt-HasType names strs [] = refl
store_txt-HasType names strs (s ∷ rest) = elim (Bool-cases (leb dns_max_txt (length strs))) [
  | inl full ↦ rw full tt
  | inr room ↦ rw room (
      store_or_fail-HasType 16 names s (λ n i. store_txt n (strs ++ some i ∷ []) rest)
        (λ n i. store_txt-HasType n (strs ++ some i ∷ []) rest))
]

one-HasType :
    (t : ℕ) (names : Bytes) (s : Str) (f : ℕ → Rdata Stored)
    → ((i : ℕ) → rr_type (f i) ≡ t)
    → HasType t (store_or_fail names s (λ n i. (n, some (f i))))
one-HasType t names s f h = store_or_fail-HasType t names s (λ n i. (n, some (f i))) (λ n i. h i)

store_rdata-HasType :
    (names : Bytes) (slot : Slot) (r : Rdata Str) → HasType (rr_type r) (store_rdata names slot r)
unfolding store_rdata
store_rdata-HasType names slot (a addr) = refl
store_rdata-HasType names slot (ns s) = one-HasType 2 names s (λ i. ns (some i)) (λ i. refl)
store_rdata-HasType names slot (cname s) = one-HasType 5 names s (λ i. cname (some i)) (λ i. refl)
store_rdata-HasType names slot (soa mname rname serial refresh retry expire min_ttl) =
    store_or_fail-HasType 6 names mname
      (λ n i. (
        (msg_store_name n rname).0,
        some (soa (some i) (msg_store_name n rname).1 serial refresh retry expire min_ttl),
      ))
      (λ n i. refl)
store_rdata-HasType names slot (ptr s) = one-HasType 12 names s (λ i. ptr (some i)) (λ i. refl)
store_rdata-HasType names slot (hinfo _ _) = refl
store_rdata-HasType names slot (mx pref s) =
    one-HasType 15 names s (λ i. mx pref (some i)) (λ i. refl)
store_rdata-HasType names slot (txt strs) = store_txt-HasType names slot.strs strs
store_rdata-HasType names slot (aaaa addr) = refl
store_rdata-HasType names slot (srv prior weight port s) =
    one-HasType 33 names s (λ i. srv prior weight port (some i)) (λ i. refl)
store_rdata-HasType names slot (opt _ _ _ _ _) = refl
store_rdata-HasType names slot (raw _) = refl

-- A record of the section that is the given one, as far as its name and its fixed fields go.
pub record Copies (names : Bytes) (src : Rr Str) (r : Rr Stored) : Type 0 where
  pub index : ℕ
  pub stored : r.name ≡ some index
  pub name : c_str names index ≡ or_empty src.name
  pub type : rr_type r.rdata ≡ rr_type src.rdata
  pub class : r.class ≡ src.class
  pub ttl : r.ttl ≡ src.ttl

-- The call fails and the section is as it was, or it returns 0 and one record more.
abbrev pub Outcome : List (Rr Stored) → Rr Str → Bytes × List (Rr Stored) × ℤ → Type 0
Outcome sect src (names', sect', rc) =
    ((rc ≡ negsuc 0) × (sect' ≡ sect))
    ⊎ ((rc ≡ pos 0) × (r : Rr Stored) × (sect' ≡ sect ++ r ∷ []) × Copies names' src r)

module _ (names : Bytes) (sect : List (Rr Stored)) (slot : Slot) (src : Rr Str) where
  -- Behind the name.
  filled-Outcome :
      (n : Bytes) (i : ℕ) (r : Stores (Rdata Stored))
      → HasString n (some i)
      → c_str n i ≡ or_empty src.name
      → StoresValid n r
      → HasType (rr_type src.rdata) r
      → Outcome sect src (elim r.1 [
        | none ↦ (r.0, sect, negsuc 0)
        | some rdata ↦ (
          r.0,
          sect
              ++ record {
                name = some i;
                class = src.class;
                ttl = src.ttl;
                rdlen = slot.rdlen;
                rdata = rdata;
              }
                ∷ [],
          pos 0,
        )
      ])
  filled-Outcome n i (n', none) h e g t = inl (refl, refl)
  filled-Outcome n i (n', some rdata) h e (g, v) t = inr (
    refl,
    record { name = some i; class = src.class; ttl = src.ttl; rdlen = slot.rdlen; rdata = rdata },
    refl,
    record {
      index = i;
      stored = refl;
      name = c_str-Grows n n' i g h ∙ e;
      type = t;
      class = refl;
      ttl = refl;
    },
  )

  named-Outcome :
      (r : Bytes × Stored)
      → msg_store_name names src.name ≡ r
      → Grows names r.0 × HasString r.0 r.1
      → All (λ c. c ≢ 0) (or_empty src.name)
      → All (HasString names) slot.strs
      → length slot.strs ≤ dns_max_txt
      → Outcome sect src (elim r.1 [
        | none ↦ (r.0, sect, negsuc 0)
        | some i ↦ elim (store_rdata r.0 slot src.rdata).1 [
          | none ↦ ((store_rdata r.0 slot src.rdata).0, sect, negsuc 0)
          | some rdata ↦ (
            (store_rdata r.0 slot src.rdata).0,
            sect
                ++ record {
                  name = some i;
                  class = src.class;
                  ttl = src.ttl;
                  rdlen = slot.rdlen;
                  rdata = rdata;
                }
                  ∷ [],
            pos 0,
          )
        ]
      ])
  unfolding msg_store_name
  named-Outcome (n, none) e (g, p) z h k = inl (refl, refl)
  named-Outcome (n, some i) e (g, p) z h k =
      filled-Outcome n i (store_rdata n slot src.rdata) p
        (c_str-msg_store_str names n (or_empty src.name) i z e)
        (store_rdata_valid n slot src.rdata
          (All-map (HasString names) (HasString n) slot.strs (λ s. HasString-grow names n s g) h) k)
        (store_rdata-HasType n slot src.rdata)

  -- A call on a section either returns -1 and leaves the section as it was, or it returns 0 and appends
  -- one record: its name reads as the given one, and its type, class and ttl are the given ones. The
  -- name has no zero byte, and the strings that the free slot lists are 32 at most and of the store.
  pub dns_sect_add_rr-Outcome :
      All (λ c. c ≢ 0) (or_empty src.name)
      → All (HasString names) slot.strs
      → length slot.strs ≤ dns_max_txt
      → Outcome sect src (dns_sect_add_rr names sect slot (some src))
  unfolding dns_sect_add_rr
  dns_sect_add_rr-Outcome z h k = elim (Bool-cases (leb dns_max_rr (length sect))) [
    | inl full ↦ rw full (inl (refl, refl))
    | inr room ↦
        rw room (named-Outcome (msg_store_name names src.name) refl (second names src.name) z h k)
  ]
