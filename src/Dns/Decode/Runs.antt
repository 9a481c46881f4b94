-- ===== src/Dns/Decode/Runs.antt =====
-- What a run of the decoder of src/dns_proto.c in load mode may leave, and how runs compose.
pub mod Strings
pub mod Data
pub mod Switch
pub mod Loaded
pub mod Records
pub mod Messages
use c_dns_pkt.Prelude.{
  ℕ, zero, suc, ◌+◌, ◌≤◌, ◌≡◌, refl, sym, ap, ◌∙◌, ◌⊎◌, inl, inr, Bool, true, false, List, [], ◌∷◌,
  length, Exec, ok, fault, stuck, leb, if◌then◌else◌, ℤ, pos, negsuc, arith, Bool-cases, Option,
  none, some,
}
use mathlib.Core.Path.{subst}
use c_dns_pkt.Mem.{Bytes, c_string}
use c_dns_pkt.Dns.Message.{Stored, Msg}
use c_dns_pkt.Dns.Message.Store.{HasString, HasString-grow, Grows, Grows-refl, Grows-trans}
use c_dns_pkt.Dns.Message.Valid.{IsValid, grown-IsValid}
use c_dns_pkt.Dns.Decode.{
  DnsErr, Input, Decoder, World, Flow, next, leave, Cmd, and_then, call, ended, dns_dec_err,
  fail_with, dns_max_emsg, ◌>>=◌, dns_msg_size, return_if,
}

-- From `w` to `w'` nothing is loaded but strings of the names store.
pub record After (w w' : World) : Type 0 where
  pub grown : Grows w.msg.names w'.msg.names
  pub same : w'.msg ≡ record (w.msg) { names = w'.msg.names }
  pub size : length w'.dec.msg ≡ length w.dec.msg
  pub errs : length w.dec.errs ≤ dns_max_emsg → length w'.dec.errs ≤ dns_max_emsg

-- Every code that a function returns early is 0 or -1.
abbrev pub IsCode : ℤ → Type 0
IsCode rc = (rc ≡ pos 0) ⊎ (rc ≡ negsuc 0)

-- A run that goes on with a value that satisfies `Q`, or returns early.
abbrev pub Went : {A : Type 0} → World → (World → A → Type 0) → Exec (Flow World A) → Type 0
Went w Q (ok (next w' a)) = After w w' × Q w' a
Went w Q (ok (leave w' rc)) = After w w' × IsCode rc
Went w Q fault = ⊥
Went w Q stuck = ⊥

pub After-refl : (w : World) → After w w
After-refl w = record { grown = Grows-refl w.msg.names; same = refl; size = refl; errs = λ h. h }

pub After-trans : (x y z : World) → After x y → After y z → After x z
After-trans x y z g h = record {
  grown = Grows-trans _ _ _ g.grown h.grown;
  same = h.same ∙ ap (λ (m : Msg). record m { names = z.msg.names }) g.same;
  size = h.size ∙ g.size;
  errs = λ k. h.errs (g.errs k);
}

-- A change of the decoder that keeps the size of the scratch buffer and the errors.
pub After-dec :
    (w : World) (dec : Decoder)
    → length dec.msg ≡ length w.dec.msg
    → dec.errs ≡ w.dec.errs
    → After w (record w { dec = dec })
After-dec w dec h k = record {
  grown = Grows-refl w.msg.names;
  same = refl;
  size = h;
  errs = λ l. omega (arith, ap (λ (es : List DnsErr). length es) k);
}

-- A string of the store stays one.
pub kept :
    (w w' : World) (p : Stored) → After w w' → HasString w.msg.names p → HasString w'.msg.names p
kept w w' p g h = HasString-grow w.msg.names w'.msg.names p g.grown h

pub After-IsValid : (w w' : World) → After w w' → IsValid w.msg → IsValid w'.msg
After-IsValid w w' g v = subst IsValid (sym g.same) (grown-IsValid w'.msg.names g.grown v)

module _ {A B : Type 0} (Q : World → A → Type 0) (Q' : World → B → Type 0) where
  -- A run, and then what is done with its value.
  pub goes_then :
      (f : A → World → Exec (Flow World B)) {w : World} (r : Exec (Flow World A))
      → Went w Q r
      → ((w' : World) (a : A) → After w w' → Q w' a → Went w' Q' (f a w'))
      → Went w Q' (and_then f r)
  goes_then f {w} (ok (next w' a)) (g, q) k = further (f a w') (k w' a g q)
    where
      further : (r : Exec (Flow World B)) → Went w' Q' r → Went w Q' r
      further (ok (next w'' b)) (h, q') = (After-trans w w' w'' g h, q')
      further (ok (leave w'' rc)) (h, q') = (After-trans w w' w'' g h, q')
      further fault h = h
      further stuck h = h
  goes_then f (ok (leave w' rc)) (g, q) k = (g, q)
  goes_then f fault h k = absurd h
  goes_then f stuck h k = absurd h

-- The run from `w` went on from `w'`.
pub since :
    {A : Type 0} (Q : World → A → Type 0) {w w' : World} (r : Exec (Flow World A))
    → After w w'
    → Went w' Q r
    → Went w Q r
since Q {w = w} {w' = w'} (ok (next w'' b)) g (h, q) = (After-trans w w' w'' g h, q)
since Q {w = w} {w' = w'} (ok (leave w'' rc)) g (h, q) = (After-trans w w' w'' g h, q)
since Q fault g h = h
since Q stuck g h = h

-- An error is noted where there is room for it.
pub fail_with_goes :
    {A : Type 0} (Q : World → A → Type 0) (group field : ℕ) (ec : ℤ) (c : Input) (w : World)
    → Went w Q (fail_with {A = A} group field ec c w)
unfolding fail_with ◌>>=◌ dns_dec_err
fail_with_goes Q group field ec c w = elim (Bool-cases (leb dns_max_emsg (length w.dec.errs))) [
  | inl e ↦ rw e (After-refl w, inr refl)
  | inr e ↦ rw e (
    record { grown = Grows-refl w.msg.names; same = refl; size = refl; errs = λ h. ground arith },
    inl refl,
  )
]

-- There is a C string at an index of the scratch buffer.
abbrev pub HasText : ℕ → World → Type 0
HasText wptr w = (s : Bytes) × (c_string wptr w.dec.msg ≡ ok s)

-- Both branches of a test.
pub if_goes :
    {A : Type 0} (Q : World → A → Type 0) (b : Bool) (x y : Cmd A) (c : Input) (w : World)
    → Went w Q (x c w)
    → Went w Q (y c w)
    → Went w Q ((if b then x else y) c w)
if_goes Q true x y c w h k = h
if_goes Q false x y c w h k = k

pub and_then_assoc :
    {A B D : Type 0} (f : B → World → Exec (Flow World D)) (g : A → World → Exec (Flow World B))
    (r : Exec (Flow World A))
    → and_then f (and_then g r) ≡ and_then (λ a w. and_then f (g a w)) r
and_then_assoc f g (ok (next w a)) = refl
and_then_assoc f g (ok (leave w rc)) = refl
and_then_assoc f g fault = refl
and_then_assoc f g stuck = refl
