-- ===== src/Pcap/Runs.antt =====
-- What the calls of src/pcap.c do, as predicates on the way they end.
pub mod Bounds
pub mod Written
pub mod RoundTrip
use c_dns_pkt.Prelude.{
  ℕ, zero, suc, ◌+◌, ◌-◌, ◌≤◌, ◌<◌, ◌≡◌, ◌≢◌, refl, ap, ◌∙◌, sym, Bool, true, false, length, take,
  drop, Exec, ok, fault, stuck, [], ◌∷◌, ltb, leb, ◌==◌, if◌then◌else◌, Bool-cases, inl, inr, ◌^◌,
  ℤ, pos, negsuc, arith,
}
use c_dns_pkt.Mem.{Bytes}
use c_dns_pkt.Pcap.Read.{
  pcap_read_shb, pcap_read_idb, pcap_skip_block, pcap_peek_block, as_int, swap32, shb_size,
  idb_size, shb_fields, swap_shb, idb_fields,
}
use c_dns_pkt.Pcap.{
  PcapFile, Act, Flow, next, leave, and_then, ended, ◌>>=◌, ◌>>◌, pure, return, state, modify, call,
  leave_if, or_leave, pcap_read_data, pcap_read_block, pcap_data_skip, pcap_data_rewind, pcap_eof,
  pcap_fail, fread, field32,
}

-- A piece of code ends, and in a way that `Q` has.
pub Finishes : {A : Type 0} → (Flow PcapFile A → Type 0) → Exec (Flow PcapFile A) → Type 0
Finishes Q (ok f) = Q f
Finishes Q fault = ⊥
Finishes Q stuck = ⊥

module _ {A B : Type 0} (Q : Flow PcapFile A → Type 0) (R : Flow PcapFile B → Type 0) where
  -- Two pieces of code, where a code that leaves the first leaves both.
  pub goes_then :
      (f : A → Act B) (r : Exec (Flow PcapFile A))
      → Finishes Q r
      → ((a : A) (file' : PcapFile) → Q (next file' a) → Finishes R (f a file'))
      → ((file' : PcapFile) (rc : ℤ) → Q (leave file' rc) → R (leave file' rc))
      → Finishes R (and_then f r)
  unfolding Finishes
  goes_then f (ok (next file' a)) q on out = on a file' q
  goes_then f (ok (leave file' rc)) q on out = out file' rc q
  goes_then f fault q on out = q
  goes_then f stuck q on out = q

-- A predicate on the code of a call, whichever way it ends.
pub Coded : (PcapFile → ℤ → Type 0) → Flow PcapFile ℤ → Type 0
Coded Q (next file' rc) = Q file' rc
Coded Q (leave file' rc) = Q file' rc

-- It goes on with a code.
pub Nexts : (PcapFile → ℤ → Type 0) → Flow PcapFile ℤ → Type 0
Nexts Q (next file' rc) = Q file' rc
Nexts Q (leave file' rc) = ⊥

module _ (Q : PcapFile → ℤ → Type 0) where
  pub goes_ended :
      (r : Exec (Flow PcapFile ℤ)) → Finishes (Coded Q) r → Finishes (Nexts Q) (ended r)
  unfolding Finishes Coded Nexts
  goes_ended (ok (next file' rc)) q = q
  goes_ended (ok (leave file' rc)) q = q
  goes_ended fault q = q
  goes_ended stuck q = q

-- The bytes of the file are those of another.
pub Same : PcapFile → PcapFile → Type 0
Same f g = g.fp.content ≡ f.fp.content

pub IsNegative : ℤ → Type 0
IsNegative (pos n) = ⊥
IsNegative (negsuc n) = Unit

-- `len` bytes were read from where the file was, or a code below 0 is returned.
pub Read : ℕ → PcapFile → Flow PcapFile Bytes → Type 0
Read len file (next file' bs) =
    Same file file'
    × (file'.fp.at ≡ file.fp.at + len)
    × (length bs ≡ len)
    × (len ≤ length file.fp.content - file.fp.at)
Read len file (leave file' rc) = Same file file' × IsNegative rc

-- Both branches of a test.
pub if_goes :
    {A : Type 0} (Q : Flow PcapFile A → Type 0) (b : Bool) (x y : Exec (Flow PcapFile A))
    → (b ≡ true → Finishes Q x)
    → (b ≡ false → Finishes Q y)
    → Finishes Q (if b then x else y)
if_goes Q true x y h k = h refl
if_goes Q false x y h k = k refl

pub if_act :
    {A : Type 0} (Q : Flow PcapFile A → Type 0) (b : Bool) (x y : Act A) (file : PcapFile)
    → (b ≡ true → Finishes Q (x file))
    → (b ≡ false → Finishes Q (y file))
    → Finishes Q ((if b then x else y) file)
if_act Q true x y file h k = h refl
if_act Q false x y file h k = k refl

length-drop : (n : ℕ) (bs : Bytes) → length (drop n bs) ≡ length bs - n
length-drop zero bs = omega arith
length-drop (suc n) [] = omega arith
length-drop (suc n) (b ∷ bs) = omega (arith, length-drop n bs)

length-take_le : (n : ℕ) (bs : Bytes) → length (take n bs) ≤ length bs
length-take_le zero bs = omega arith
length-take_le (suc n) [] = omega arith
length-take_le (suc n) (b ∷ bs) = omega (arith, length-take_le n bs)

pub pcap_read_data-Read :
    (len : ℕ) (file : PcapFile) → Finishes (Read len file) (pcap_read_data len file)
unfolding pcap_read_data Finishes Read Same IsNegative
pcap_read_data-Read len file =
    let behind = drop file.fp.at file.fp.content in
    let got = take len behind in
    let short : length got ≤ length file.fp.content - file.fp.at =
      rw (sym (length-drop file.fp.at file.fp.content)) (length-take_le len behind) in
    if_goes (Read len file) (length got == len) _ _
      (λ e.
        let all : length got ≡ len = ground arith in
        (refl, ap (λ n. file.fp.at + n) all, all, omega arith))
      (λ e. if_goes (Read len file) (length got == 0) _ _ (λ e. (refl, tt)) (λ e. (refl, tt)))

pub pcap_read_block-Read :
    (len : ℕ) (file : PcapFile) → Finishes (Read len file) (pcap_read_block len file)
unfolding pcap_read_block ◌>>=◌ ◌>>◌ Finishes Read Same
pcap_read_block-Read len file =
    goes_then (Read len file) (Read len file) _ (pcap_read_data len file)
      (pcap_read_data-Read len file) (λ bs file' q. q) (λ file' rc q. q)

pub negative_nonzero : (rc : ℤ) → IsNegative rc → rc ≢ pos 0
unfolding IsNegative
negative_nonzero (pos n) h e = h
negative_nonzero (negsuc n) h e = cc

-- A code 0 means that the file has gone forward.
pub Forward : PcapFile → PcapFile → ℤ → Type 0
Forward file file' rc = Same file file' × (rc ≡ pos 0 → file.fp.at < file'.fp.at)

-- The type of the block at the position, or a code below 0.
pub Peeked : PcapFile → PcapFile → ℤ → Type 0
Peeked file file' (pos type) =
    Same file file' × (file'.fp.at ≡ file.fp.at) × (file.fp.at < length file.fp.content)
Peeked file file' (negsuc n) = Same file file'

module _ {A : Type 0} (Q : Flow PcapFile A → Type 0) where
  -- `if (b) return rc;`, and what follows.
  pub goes_unless :
      (b : Bool) (rc : ℤ) (f : Unit → Act A) (file : PcapFile)
      → (b ≡ true → Q (leave file rc))
      → (b ≡ false → Finishes Q (f tt file))
      → Finishes Q (and_then f (leave_if b rc file))
  unfolding Finishes leave_if
  goes_unless true rc f file h k = h refl
  goes_unless false rc f file h k = k refl

as_int-Peeked :
    (v : ℕ) (file file' : PcapFile)
    → Same file file'
    → file'.fp.at ≡ file.fp.at
    → file.fp.at < length file.fp.content
    → Peeked file file' (as_int v)
unfolding Peeked
as_int-Peeked v file file' same at room = elim (Bool-cases (ltb v (2 ^ 31))) [
  | inl e ↦ rw e (same, at, room)
  | inr e ↦ rw e same
]

negative-Peeked :
    (file file' : PcapFile) (rc : ℤ) → Same file file' → IsNegative rc → Peeked file file' rc
unfolding Peeked IsNegative
negative-Peeked file file' (pos n) same h = elim h [ ]
negative-Peeked file file' (negsuc n) same h = same

pub pcap_peek_block-Peeked :
    (file : PcapFile) → Finishes (Nexts (Peeked file)) (call pcap_peek_block file)
unfolding call pcap_peek_block ◌>>=◌ ◌>>◌ Finishes Read Same Coded Peeked pcap_data_rewind or_leave
pcap_peek_block-Peeked file = goes_ended (Peeked file) _ (
    goes_then (Read 4 file) (Coded (Peeked file)) _ (pcap_read_data 4 file)
      (pcap_read_data-Read 4 file)
      (λ bs file' (same, at, len, room).
        let back : ltb file'.fp.at 4 ≡ false = ground arith in
        rw back (
          as_int-Peeked (swap32 file'.must_swap (field32 bs 0)) file
            (record file' { fp = record (file'.fp) { at = file'.fp.at - 4 } }) same (omega arith)
            (omega arith)))
      (λ file' rc (same, neg). negative-Peeked file file' rc same neg))

pub pcap_skip_block-Forward :
    (file : PcapFile) → Finishes (Coded (Forward file)) (pcap_skip_block file)
unfolding pcap_skip_block ◌>>=◌ ◌>>◌ Finishes Read Same Coded Forward pcap_data_skip IsNegative
pcap_skip_block-Forward file =
    goes_then (Read 8 file) (Coded (Forward file)) _ (pcap_read_block 8 file)
      (pcap_read_block-Read 8 file)
      (λ bs file' (same, at, len, room).
        goes_unless (Coded (Forward file)) _ pcap_fail _ file'
          (λ e. (same, λ z. absurd (negative_nonzero pcap_fail tt z)))
          (λ e. (same, λ z. omega (arith, at))))
      (λ file' rc (same, neg). (same, λ z. absurd (negative_nonzero rc neg z)))

pub pcap_read_shb-Forward : (file : PcapFile) → Finishes (Coded (Forward file)) (pcap_read_shb file)
unfolding pcap_read_shb ◌>>=◌ ◌>>◌ Finishes Read Same Coded Forward pcap_data_skip IsNegative
pcap_read_shb-Forward file =
    goes_then (Read 24 file) (Coded (Forward file)) _ (pcap_read_block 24 file)
      (pcap_read_block-Read 24 file)
      (λ bs file' (same, at, len, room).
        goes_unless (Coded (Forward file)) _ pcap_fail _ _
          (λ e. (same, λ z. absurd (negative_nonzero pcap_fail tt z)))
          (λ e.
            goes_unless (Coded (Forward file)) _ pcap_fail _ _
              (λ e. (same, λ z. absurd (negative_nonzero pcap_fail tt z)))
              (λ e. (same, λ z. omega (arith, at)))))
      (λ file' rc (same, neg). (same, λ z. absurd (negative_nonzero rc neg z)))

pub pcap_read_idb-Forward : (file : PcapFile) → Finishes (Coded (Forward file)) (pcap_read_idb file)
unfolding pcap_read_idb ◌>>=◌ ◌>>◌ Finishes Read Same Coded Forward pcap_data_skip IsNegative
pcap_read_idb-Forward file =
    goes_then (Read 16 file) (Coded (Forward file)) _ (pcap_read_block 16 file)
      (pcap_read_block-Read 16 file)
      (λ bs file' (same, at, len, room).
        goes_unless (Coded (Forward file)) _ pcap_fail _ _
          (λ e. (same, λ z. absurd (negative_nonzero pcap_fail tt z)))
          (λ e. (same, λ z. omega (arith, at))))
      (λ file' rc (same, neg). (same, λ z. absurd (negative_nonzero rc neg z)))
