-- ===== src/Dns/Message/Valid/Contents.antt =====
-- `store_rdata`, the switch of `dns_sect_add_rr` of src/dns_proto.c, and the strings of a record.
use c_dns_pkt.Prelude.{
  ℕ, ◌+◌, ◌≤◌, ◌<◌, ◌≡◌, List, [], ◌∷◌, ◌++◌, length, All, All-map, none, some, false, leb, arith,
  Bool-cases, inl, inr, length-append,
}
use c_dns_pkt.Mem.{Bytes, Str, or_empty}
use c_dns_pkt.Dns.{dns_max_txt}
use c_dns_pkt.Dns.Message.{
  Stored, Rdata, a, ns, cname, soa, ptr, hinfo, mx, txt, aaaa, srv, opt, raw, Slot, Stores,
  msg_store_str, msg_store_name, store_or_fail, store_txt, store_rdata,
}
use c_dns_pkt.Dns.Message.Store.{
  HasString, HasString-grow, Grows, Grows-refl, Grows-trans, msg_store_str-Grows,
}
use c_dns_pkt.Dns.Message.Valid.{RdataValid, All-concat}

-- What a call that stores strings may leave.
abbrev pub StoresValid : Bytes → Stores (Rdata Stored) → Type 0
StoresValid names (names', none) = Grows names names'
StoresValid names (names', some r) = Grows names names' × RdataValid names' r

StoresValid-grow :
    (names names' : Bytes) (res : Stores (Rdata Stored))
    → Grows names names'
    → StoresValid names' res
    → StoresValid names res
StoresValid-grow names names' (n, none) g h = Grows-trans names names' n g h
StoresValid-grow names names' (n, some r) g (h, k) = (Grows-trans names names' n g h, k)

store_or_fail_valid :
    (names : Bytes) (s : Str) (next : Bytes → ℕ → Stores (Rdata Stored))
    → ((n : Bytes) (i : ℕ) → Grows names n → HasString n (some i) → StoresValid n (next n i))
    → StoresValid names (store_or_fail names s next)
unfolding msg_store_name
store_or_fail_valid names s next h =
    split (msg_store_str names (or_empty s)) (msg_store_str-Grows names (or_empty s))
  where
    split :
        (r : Bytes × Stored)
        → Grows names r.0 × HasString r.0 r.1
        → StoresValid names (elim r.1 [ none ↦ (r.0, none) | some i ↦ next r.0 i ])
    split (n, none) (g, k) = g
    split (n, some i) (g, k) = StoresValid-grow names n (next n i) g (h n i g k)

length-concat {ℓ} : {A : Type ℓ} (xs : List A) (x : A) → length (xs ++ x ∷ []) ≡ length xs + 1
length-concat xs x = length-append xs (x ∷ [])

store_txt_valid :
    (names : Bytes) (strs : List Stored) (src : List Str)
    → All (HasString names) strs
    → length strs ≤ dns_max_txt
    → StoresValid names (store_txt names strs src)
unfolding store_txt
store_txt_valid names strs [] h k = (Grows-refl names, (h, k))
store_txt_valid names strs (s ∷ rest) h k = elim (Bool-cases (leb dns_max_txt (length strs))) [
  | inl full ↦ rw full (Grows-refl names)
  | inr room ↦ rw room (
      store_or_fail_valid names s _ (λ n i g p.
        store_txt_valid n (strs ++ some i ∷ []) rest
          (All-concat (HasString n) strs (some i)
            (All-map (HasString names) (HasString n) strs (λ t. HasString-grow names n t g) h) p)
          (omega
            (arith, leb-false dns_max_txt (length strs) room, length-concat {0} strs (some i)))))
]
  where
    leb-false : (x y : ℕ) → leb x y ≡ false → y < x
    leb-false x y e = ground arith

-- A string that is stored without a test.
pub second :
    (names : Bytes) (s : Str)
    → Grows names (msg_store_name names s).0
      × HasString (msg_store_name names s).0 (msg_store_name names s).1
unfolding msg_store_name
second names s = msg_store_str-Grows names (or_empty s)

-- Two strings that are stored without a test.
two_stored :
    (names : Bytes) (s t : Str)
    → Grows names (msg_store_name (msg_store_name names s).0 t).0
      × (HasString (msg_store_name (msg_store_name names s).0 t).0 (msg_store_name names s).1
          × HasString
              (msg_store_name (msg_store_name names s).0 t).0
              (msg_store_name (msg_store_name names s).0 t).1)
two_stored names s t =
    let (g, p) = second names s in
    let n = (msg_store_name names s).0 in
    let (g', p') = second n t in (Grows-trans names n _ g g', (HasString-grow n _ _ g' p, p'))

one_stored :
    (names : Bytes) (s : Str) (f : ℕ → Rdata Stored)
    → ((n : Bytes) (i : ℕ) → HasString n (some i) → RdataValid n (f i))
    → StoresValid names (store_or_fail names s (λ n i. (n, some (f i))))
one_stored names s f h =
    store_or_fail_valid names s (λ n i. (n, some (f i))) (λ n i g p. (Grows-refl n, h n i p))

pub store_rdata_valid :
    (names : Bytes) (slot : Slot) (r : Rdata Str)
    → All (HasString names) slot.strs
    → length slot.strs ≤ dns_max_txt
    → StoresValid names (store_rdata names slot r)
unfolding store_rdata
store_rdata_valid names slot (a addr) h k = (Grows-refl names, tt)
store_rdata_valid names slot (ns s) h k = one_stored names s (λ i. ns (some i)) (λ n i p. p)
store_rdata_valid names slot (cname s) h k = one_stored names s (λ i. cname (some i)) (λ n i p. p)
store_rdata_valid names slot (soa mname rname serial refresh retry expire min_ttl) h k =
    store_or_fail_valid names mname
      (λ n i. (
        (msg_store_name n rname).0,
        some (soa (some i) (msg_store_name n rname).1 serial refresh retry expire min_ttl),
      ))
      (λ n i g p. let (g', q) = second n rname in (g', (HasString-grow n _ (some i) g' p, q)))
store_rdata_valid names slot (ptr s) h k = one_stored names s (λ i. ptr (some i)) (λ n i p. p)
store_rdata_valid names slot (hinfo cpu_str os_str) h k = two_stored names cpu_str os_str
store_rdata_valid names slot (mx pref s) h k =
    one_stored names s (λ i. mx pref (some i)) (λ n i p. p)
store_rdata_valid names slot (txt strs) h k = store_txt_valid names slot.strs strs h k
store_rdata_valid names slot (aaaa addr) h k = (Grows-refl names, tt)
store_rdata_valid names slot (srv prior weight port s) h k =
    one_stored names s (λ i. srv prior weight port (some i)) (λ n i p. p)
store_rdata_valid names slot (opt _ _ _ _ _) h k = (Grows-refl names, tt)
store_rdata_valid names slot (raw _) h k = (Grows-refl names, tt)
