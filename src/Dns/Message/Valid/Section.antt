-- ===== src/Dns/Message/Valid/Section.antt =====
-- `dns_sect_add_rr` of src/dns_proto.c and the invariant of a section.
use c_dns_pkt.Prelude.{
  ℕ, ◌≤◌, ◌<◌, List, [], ◌∷◌, ◌++◌, length, All, All-map, Option, none, some, leb, ℤ, pos, negsuc,
  arith, Bool-cases, inl, inr, length-append,
}
use c_dns_pkt.Mem.{Bytes, Str}
use c_dns_pkt.Dns.{dns_max_rr, dns_max_txt}
use c_dns_pkt.Dns.Message.{
  Stored, Rdata, Rr, Slot, Stores, msg_store_name, store_rdata, dns_sect_add_rr,
}
use c_dns_pkt.Dns.Message.Store.{HasString, HasString-grow, Grows, Grows-refl, Grows-trans}
use c_dns_pkt.Dns.Message.Valid.{RrValid, All-concat, section_grow}
use c_dns_pkt.Dns.Message.Valid.Contents.{StoresValid, second, store_rdata_valid}

-- What `dns_sect_add_rr` may leave of the names store and its section.
pub record SectValid (names : Bytes) (res : Bytes × List (Rr Stored) × ℤ) : Type 0 where
  pub grows : Grows names res.0
  pub len : length res.1 ≤ dns_max_rr
  pub valid : All (RrValid res.0) res.1

pub dns_sect_add_rr_valid :
    (names : Bytes) (sect : List (Rr Stored)) (slot : Slot) (src : Option (Rr Str))
    → length sect ≤ dns_max_rr
    → All (RrValid names) sect
    → All (HasString names) slot.strs
    → length slot.strs ≤ dns_max_txt
    → SectValid names (dns_sect_add_rr names sect slot src)
unfolding dns_sect_add_rr
dns_sect_add_rr_valid names sect slot none l v h k = record {
  grows = Grows-refl names;
  len = l;
  valid = v;
}
dns_sect_add_rr_valid names sect slot (some src) l v h k =
    elim (Bool-cases (leb dns_max_rr (length sect))) [
      | inl full ↦ rw full (record { grows = Grows-refl names; len = l; valid = v })
      | inr room ↦
          rw room (named (msg_store_name names src.name) (second names src.name) (ground arith))
    ]
  where
    filled :
        (n : Bytes) (i : ℕ) (r : Stores (Rdata Stored))
        → length sect < dns_max_rr
        → Grows names n
        → HasString n (some i)
        → StoresValid n r
        → SectValid names (elim r.1 [
          | none ↦ (r.0, sect, negsuc 0)
          | some rdata ↦ (
            r.0,
            sect
                ++ record {
                  name = some i;
                  class = src.class;
                  ttl = src.ttl;
                  rdlen = slot.rdlen;
                  rdata = rdata;
                }
                  ∷ [],
            pos 0,
          )
        ])
    filled n i (n', none) room g p g' =
        let whole = Grows-trans names n n' g g' in
        record { grows = whole; len = l; valid = section_grow names n' whole sect v }
    filled n i (n', some rdata) room g p (g', q) =
        let whole = Grows-trans names n n' g g' in
        record {
          grows = whole;
          len = omega (
            arith,
            length-append sect (
                record {
                  name = some i;
                  class = src.class;
                  ttl = src.ttl;
                  rdlen = slot.rdlen;
                  rdata = rdata;
                }
                ∷ []),
          );
          valid =
              All-concat (RrValid n') sect _ (section_grow names n' whole sect v)
                (HasString-grow n n' (some i) g' p, q);
        }

    named :
        (r : Bytes × Stored)
        → Grows names r.0 × HasString r.0 r.1
        → length sect < dns_max_rr
        → SectValid names (elim r.1 [
          | none ↦ (r.0, sect, negsuc 0)
          | some i ↦ elim (store_rdata r.0 slot src.rdata).1 [
            | none ↦ ((store_rdata r.0 slot src.rdata).0, sect, negsuc 0)
            | some rdata ↦ (
              (store_rdata r.0 slot src.rdata).0,
              sect
                  ++ record {
                    name = some i;
                    class = src.class;
                    ttl = src.ttl;
                    rdlen = slot.rdlen;
                    rdata = rdata;
                  }
                    ∷ [],
              pos 0,
            )
          ]
        ])
    named (n, none) (g, p) room = record {
      grows = g;
      len = l;
      valid = section_grow names n g sect v;
    }
    named (n, some i) (g, p) room = filled n i (store_rdata n slot src.rdata) room g p (
        store_rdata_valid n slot src.rdata
          (All-map (HasString names) (HasString n) slot.strs (λ s. HasString-grow names n s g) h) k)
