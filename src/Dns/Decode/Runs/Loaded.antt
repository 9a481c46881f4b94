-- ===== src/Dns/Decode/Runs/Loaded.antt =====
-- Records, questions and messages that src/dns_proto.c decodes in load mode: the invariant of the
-- decoder and its message across whole functions.
use c_dns_pkt.Prelude.{
  ℕ, suc, ◌+◌, ◌≤◌, ◌<◌, ◌≡◌, refl, ap, ◌∙◌, ◌⊎◌, inl, inr, Bool, true, false, ◌^◌, [], ◌∷◌, length,
  Exec, ok, fault, stuck, ◌==◌, if◌then◌else◌, ℤ, pos, arith, Bool-cases, length-append,
}
use c_dns_pkt.Mem.{Bytes}
use c_dns_pkt.Words.{dec_u16}
use c_dns_pkt.Dns.{dns_max_rr}
use c_dns_pkt.Dns.Message.{Stored, Rr, Msg}
use c_dns_pkt.Dns.Message.Valid.{IsValid, RrValid, All-concat}
use c_dns_pkt.Dns.Decode.{
  Input, Decoder, World, Flow, next, leave, Cmd, and_then, call, ended, dns_msg_size, dns_max_emsg,
}
use c_dns_pkt.Dns.Decode.Report.{dns_an, dns_ns, dns_rr}
use c_dns_pkt.Dns.Decode.Rdata.{error_if}
use c_dns_pkt.Dns.Decode.Record.{sect_list, sect_add}
use c_dns_pkt.Dns.Decode.Runs.{After, After-dec, After-IsValid, Went, IsCode, fail_with_goes}

-- Bounds of the three sections.
pub record Rows : Type 0 where
  pub an : ℕ
  pub ns : ℕ
  pub ar : ℕ

-- One record more in a section.
abbrev pub one_more : ℕ → Rows → Rows
one_more sect_code b =
    if sect_code == dns_an
    then record b { an = suc b.an }
    else if sect_code == dns_ns
    then record b { ns = suc b.ns }
    else record b { ar = suc b.ar }

-- The message is valid, its sections are within the bounds, the scratch buffer has its size, and the
-- list of errors fits.
pub record Good (b : Rows) (w : World) : Type 0 where
  pub valid : IsValid w.msg
  pub sized : length w.dec.msg ≡ dns_msg_size
  pub errs : length w.dec.errs ≤ dns_max_emsg
  pub an_rows : length w.msg.an ≤ b.an
  pub ns_rows : length w.msg.ns ≤ b.ns
  pub ar_rows : length w.msg.ar ≤ b.ar

-- A run ends, within its buffers, with what `P` says, or returns 0 or -1 early and leaves all good.
abbrev pub Ends : {A : Type 0} → (World → A → Type 0) → Rows → Exec (Flow World A) → Type 0
Ends P b (ok (next w a)) = P w a
Ends P b (ok (leave w rc)) = Good b w × IsCode rc
Ends P b fault = ⊥
Ends P b stuck = ⊥

abbrev pub Done : {A : Type 0} → Rows → Exec (Flow World A) → Type 0
Done b = Ends (λ w a. Good b w) b

-- A function that returns 0 or -1.
abbrev pub Coded : Rows → Exec (Flow World ℤ) → Type 0
Coded b = Ends (λ w rc. Good b w × IsCode rc) b

pub After-Good : (b : Rows) (w w' : World) → After w w' → Good b w → Good b w'
After-Good b w w' g h = record {
  valid = After-IsValid w w' g h.valid;
  sized = g.size ∙ h.sized;
  errs = g.errs h.errs;
  an_rows = omega (arith, ap (λ (m : Msg). length m.an) g.same, h.an_rows);
  ns_rows = omega (arith, ap (λ (m : Msg). length m.ns) g.same, h.ns_rows);
  ar_rows = omega (arith, ap (λ (m : Msg). length m.ar) g.same, h.ar_rows);
}

-- Changes of the decoder outside of the scratch buffer and the errors.
pub dec-Good :
    (b : Rows) (w : World) (dec : Decoder)
    → length dec.msg ≡ length w.dec.msg
    → dec.errs ≡ w.dec.errs
    → Good b w
    → Good b (record w { dec = dec })
dec-Good b w dec s e h = After-Good b w _ (After-dec w dec s e) h

pub one_more-Good :
    (sect_code : ℕ) (b : Rows) (w : World) → Good b w → Good (one_more sect_code b) w
one_more-Good sect_code b w h = record {
  valid = h.valid;
  sized = h.sized;
  errs = h.errs;
  an_rows = let l = h.an_rows in ground arith;
  ns_rows = let l = h.ns_rows in ground arith;
  ar_rows = let l = h.ar_rows in ground arith;
}

-- A run that ends with smaller bounds.
pub lift-Ends :
    {A : Type 0} (P : World → A → Type 0) (b b' : Rows) (r : Exec (Flow World A))
    → ((w : World) → Good b w → Good b' w)
    → Ends P b r
    → Ends P b' r
lift-Ends P b b' (ok (next w a)) k h = h
lift-Ends P b b' (ok (leave w rc)) k (h, code) = (k w h, code)
lift-Ends P b b' fault k h = h
lift-Ends P b b' stuck k h = h

module _ {A B : Type 0} (P : World → A → Type 0) (P' : World → B → Type 0) where
  pub Ends-then :
      (f : A → World → Exec (Flow World B)) (b : Rows) (r : Exec (Flow World A))
      → Ends P b r
      → ((w' : World) (a : A) → P w' a → Ends P' b (f a w'))
      → Ends P' b (and_then f r)
  Ends-then f b (ok (next w a)) h k = k w a h
  Ends-then f b (ok (leave w rc)) h k = h
  Ends-then f b fault h k = h
  Ends-then f b stuck h k = h

  pub goes-Ends :
      (f : A → World → Exec (Flow World B)) {b : Rows} {w : World} (r : Exec (Flow World A))
      → Good b w
      → Went w P r
      → ((w' : World) (a : A) → After w w' → Good b w' → P w' a → Ends P' b (f a w'))
      → Ends P' b (and_then f r)
  goes-Ends f {b = b} {w = w} (ok (next w' a)) h (g, q) k = k w' a g (After-Good b w w' g h) q
  goes-Ends f {b = b} {w = w} (ok (leave w' rc)) h (g, q) k = (After-Good b w w' g h, q)
  goes-Ends f fault h q k = q
  goes-Ends f stuck h q k = q

-- An error ends a run.
pub fail-Ends :
    {A : Type 0} (P : World → A → Type 0) (b : Rows) (r : Exec (Flow World A)) (w : World)
    → Good b w
    → Went w (λ w' a. ⊥) r
    → Ends P b r
fail-Ends P b (ok (next w' a)) w h (g, q) = absurd q
fail-Ends P b (ok (leave w' rc)) w h (g, q) = (After-Good b w w' g h, q)
fail-Ends P b fault w h q = q
fail-Ends P b stuck w h q = q

pub error-Ends :
    {B : Type 0} (P : World → B → Type 0) (f : Unit → World → Exec (Flow World B)) (b : Bool)
    (field ec : ℕ) (c : Input) (w : World) {bound : Rows}
    → Good bound w
    → ((b ≡ false) → Ends P bound (f tt w))
    → Ends P bound (and_then f (error_if b field ec c w))
unfolding error_if
error-Ends P f true field ec c w h k =
    goes-Ends (λ w' u. ⊥) P f _ h (fail_with_goes _ dns_rr field (pos ec) c w)
      (λ w' u g i q. absurd q)
error-Ends P f false field ec c w h k = k refl

-- A call of a function ends: its body went on with a value, or returned a code.
pub call-Ends :
    (P : World → ℤ → Type 0) (b b' : Rows) (body : Cmd ℤ) (c : Input) (w : World)
    → Ends P b (body c w)
    → Ends (λ w' rc. P w' rc ⊎ Good b w' × IsCode rc) b' (call body c w)
unfolding call
call-Ends P b b' body c w h = called (body c w) h
  where
    called :
        (r : Exec (Flow World ℤ))
        → Ends P b r
        → Ends (λ w' rc. P w' rc ⊎ Good b w' × IsCode rc) b' (ended r)
    called (ok (next w' a)) h = inl h
    called (ok (leave w' rc)) h = inr h
    called fault h = h
    called stuck h = h

pub call-Coded :
    (b : Rows) (body : Cmd ℤ) (c : Input) (w : World) → Coded b (body c w) → Coded b (call body c w)
unfolding call
call-Coded b body c w h = called (body c w) h
  where
    called : (r : Exec (Flow World ℤ)) → Coded b r → Coded b (ended r)
    called (ok (next w' a)) h = h
    called (ok (leave w' rc)) h = h
    called fault h = h
    called stuck h = h

-- The input of `dns_msg_decode` for a message whose free records count no strings.
abbrev pub load_input : Bytes → Input
load_input pkt = record { pkt_buf = pkt; need_emsg = false; load_msg = true; held = λ sc row. [] }

-- No 16-bit number of the packet, as a length from its end on, reaches the position 65536.
abbrev pub NoWrap : Bytes → Type 0
NoWrap pkt = (i rdlen : ℕ) → dec_u16 pkt i ≡ ok rdlen → i + 2 + rdlen < 2 ^ 16

-- A valid record in a section with room for it.
pub sect_add-IsValid :
    (sect_code : ℕ) (rr : Rr Stored) (msg : Msg)
    → IsValid msg
    → length (sect_list sect_code msg) < dns_max_rr
    → RrValid msg.names rr
    → IsValid (sect_add sect_code rr msg)
sect_add-IsValid sect_code rr msg v room h = elim (Bool-cases (sect_code == dns_an)) [
  | inl e ↦ rw e (record {
    store = v.store;
    qd_len = v.qd_len;
    an_len = omega (arith, length-append msg.an (rr ∷ []), rw e at room);
    ns_len = v.ns_len;
    ar_len = v.ar_len;
    qd = v.qd;
    an = All-concat (RrValid msg.names) msg.an rr v.an h;
    ns = v.ns;
    ar = v.ar;
  })
  | inr e ↦ elim (Bool-cases (sect_code == dns_ns)) [
    | inl f ↦
        rw (e, f)
          (record {
            store = v.store;
            qd_len = v.qd_len;
            an_len = v.an_len;
            ns_len = omega (arith, length-append msg.ns (rr ∷ []), rw (e, f) at room);
            ar_len = v.ar_len;
            qd = v.qd;
            an = v.an;
            ns = All-concat (RrValid msg.names) msg.ns rr v.ns h;
            ar = v.ar;
          })
    | inr f ↦
        rw (e, f)
          (record {
            store = v.store;
            qd_len = v.qd_len;
            an_len = v.an_len;
            ns_len = v.ns_len;
            ar_len = omega (arith, length-append msg.ar (rr ∷ []), rw (e, f) at room);
            qd = v.qd;
            an = v.an;
            ns = v.ns;
            ar = All-concat (RrValid msg.names) msg.ar rr v.ar h;
          })
  ]
]
