-- ===== src/Dns/Decode/Runs/Strings.antt =====
-- Names and strings of the decoder of src/dns_proto.c: what runs of `label_to`, `keep_name` and
-- `keep_bytes` leave.
use c_dns_pkt.Prelude.{
  ℕ, zero, suc, ◌+◌, ◌-◌, ◌≤◌, ◌<◌, ◌≡◌, refl, ◌∙◌, ◌⊎◌, inl, inr, true, [], ◌∷◌, length, Exec, ok,
  fault, stuck, some, none, ltb, ℤ, pos, negsuc, arith, Bool-cases,
}
use c_dns_pkt.Mem.{Bytes, splice, codes}
use c_dns_pkt.Mem.Laws.{write_at_lem, length-splice, length-read_at}
use c_dns_pkt.Mem.Text.{c_string-splice}
use c_dns_pkt.Dns.Name.Decode.{Decoded, named, failed, decode_name}
use c_dns_pkt.Dns.Name.Decode.Safe.{NameSafe, decode_name-NameSafe}
use c_dns_pkt.Dns.Message.{Stored}
use c_dns_pkt.Dns.Message.Store.{HasString, msg_store_str-Grows}
use c_dns_pkt.Dns.Decode.{Input, World, next, and_then, run, ◌>>=◌, ◌>>◌, dns_msg_size}
use c_dns_pkt.Dns.Decode.Report.{dns_rr}
use c_dns_pkt.Dns.Decode.Scratch.{
  scratch, settle, decode_to, dns_add_str, fix_label, or_return, or_error, label_to, text_at,
  put_string, not_null, keep_name, keep_bytes,
}
use c_dns_pkt.Dns.Decode.Runs.{
  After-refl, After-dec, Went, HasText, goes_then, if_goes, fail_with_goes,
}

-- A count leaves a string of the buffer at `wptr`; an error is below 0.
abbrev pub IsNamed : ℕ → World → ℤ → Type 0
IsNamed wptr w' (pos n) = (0 < n) × (wptr + n ≤ dns_msg_size) × HasText wptr w'
IsNamed wptr w' (negsuc n) = Unit {0}

module _ (c : Input) (w : World) (sized : length w.dec.msg ≡ dns_msg_size) where
  pub scratch_lem :
      (wptr : ℕ) (bs : Bytes)
      → wptr + length bs ≤ dns_msg_size
      → scratch wptr bs c w
        ≡ ok (next (record w { dec = record (w.dec) { msg = splice wptr bs w.dec.msg } }) tt)
  unfolding scratch ◌>>=◌
  scratch_lem wptr bs h = rw (write_at_lem wptr bs w.dec.msg (omega arith)) refl

  settle_goes :
      (wptr : ℕ) (d : Decoded)
      → wptr ≤ dns_msg_size
      → NameSafe c.pkt_buf true (dns_msg_size - wptr) w.dec.offset (ok d)
      → Went w (IsNamed wptr) (settle wptr d c w)
  unfolding settle ◌>>◌
  settle_goes wptr (named offset name rc) h (o, r, (p, l, (k, z))) =
      let fits : wptr + length name ≤ dns_msg_size = omega arith in
      rw (scratch_lem wptr name fits) (
        After-dec w _ (length-splice wptr name w.dec.msg) refl,
        (omega arith, omega arith, c_string-splice wptr name w.dec.msg k (omega arith) z),
      )
  settle_goes wptr (failed offset zero name) h (o, p, l) = absurd (omega arith)
  settle_goes wptr (failed offset (suc ec) name) h (o, p, l) =
      let fits : wptr + length name ≤ dns_msg_size = omega arith in
      rw (scratch_lem wptr name fits) (After-dec w _ (length-splice wptr name w.dec.msg) refl, tt)

  pub decode_to_goes : (wptr : ℕ) → wptr ≤ dns_msg_size → Went w (IsNamed wptr) (decode_to wptr c w)
  unfolding decode_to ◌>>=◌
  decode_to_goes wptr h =
      decoded (decode_name c.pkt_buf true (dns_msg_size - wptr) w.dec.offset)
        (decode_name-NameSafe c.pkt_buf true (dns_msg_size - wptr) w.dec.offset)
    where
      decoded :
          (d : Exec Decoded)
          → NameSafe c.pkt_buf true (dns_msg_size - wptr) w.dec.offset d
          → Went w (IsNamed wptr) (and_then (λ d w'. settle wptr d c w') (run d c w))
      decoded (ok d) s = settle_goes wptr d h s
      decoded fault s = absurd s
      decoded stuck s = absurd s

-- The text of a label is not empty, it and its zero byte fit, and it is a string of the buffer.
abbrev pub IsLabel : ℕ → World → ℕ → Type 0
IsLabel wptr w' rc = (0 < rc) × (wptr + rc + 1 ≤ dns_msg_size) × HasText wptr w'

pub add_root_goes :
    (c : Input) (w : World) (wptr : ℕ)
    → length w.dec.msg ≡ dns_msg_size
    → Went w
        (λ w' rc. (rc ≡ negsuc 0) ⊎ (rc ≡ pos 1) × IsLabel wptr w' 1)
        (dns_add_str wptr (dns_msg_size - wptr) (codes ".") c w)
unfolding dns_add_str ◌>>◌
add_root_goes c w wptr sized = elim (Bool-cases (ltb (dns_msg_size - wptr) 2)) [
  | inl e ↦ rw e (After-refl w, inl refl)
  | inr e ↦
      let fits : wptr + 2 ≤ dns_msg_size = ground arith in
      rw (e, scratch_lem c w sized wptr (b'.' ∷ 0 ∷ []) fits)
        (
          After-dec w _ (length-splice wptr (b'.' ∷ 0 ∷ []) w.dec.msg) refl,
          inr (
            refl,
            (
              omega arith,
              omega arith,
              c_string-splice wptr (b'.' ∷ 0 ∷ []) w.dec.msg 1 (omega arith) refl,
            ),
          ),
        )
]

module _ (c : Input) where
  root_done :
      (wptr : ℕ) (w : World) (rc : ℤ)
      → (rc ≡ negsuc 0) ⊎ (rc ≡ pos 1) × IsLabel wptr w 1
      → Went w (IsLabel wptr) (or_return rc c w)
  unfolding or_return
  root_done wptr w rc (inl e) = rw e (After-refl w, inr refl)
  root_done wptr w rc (inr (e, l)) = rw e (After-refl w, l)

  named_goes :
      (field wptr : ℕ) (w : World) (rc : ℤ)
      → length w.dec.msg ≡ dns_msg_size
      → IsNamed wptr w rc
      → Went w (IsLabel wptr) ((or_error field rc >>= λ rc. fix_label rc wptr >>= or_return) c w)
  unfolding or_error fix_label or_return ◌>>=◌
  named_goes field wptr w (negsuc n) sized h =
      goes_then (λ w' rc. ⊥) _ _ _ (fail_with_goes _ dns_rr field (pos (suc n)) c w)
        (λ w' a g q. absurd q)
  named_goes field wptr w (pos zero) sized (p, h, text) = absurd (omega arith)
  named_goes field wptr w (pos (suc zero)) sized h =
      goes_then _ _ _ _ (add_root_goes c w wptr sized) (λ w' rc g q. root_done wptr w' rc q)
  named_goes field wptr w (pos (suc (suc n))) sized (p, h, text) =
      (After-refl w, (omega arith, omega arith, text))

  -- A name of a record is decoded, or the run ends with an error.
  pub label_to_goes :
      (field wptr : ℕ) (w : World)
      → length w.dec.msg ≡ dns_msg_size
      → wptr ≤ dns_msg_size
      → Went w (IsLabel wptr) (label_to field wptr c w)
  unfolding label_to ◌>>=◌
  label_to_goes field wptr w sized h =
      goes_then _ _ _ _ (decode_to_goes c w sized wptr h)
        (λ w' rc g q. named_goes field wptr w' rc (g.size ∙ sized) q)

  -- A pointer of the names store, with the decoder as it was.
  abbrev pub IsKept : World → World → Stored → Type 0
  IsKept w w' p = HasString w'.msg.names p × (w'.dec ≡ w.dec)

  pub put_string_goes : (str : Bytes) (w : World) → Went w (IsKept w) (put_string str c w)
  unfolding put_string ◌>>=◌ ◌>>◌
  put_string_goes str w =
      let (g, p) = msg_store_str-Grows w.msg.names str in
      (record { grown = g; same = refl; size = refl; errs = λ h. h }, (p, refl))

  pub not_null_goes :
      (p : Stored) (w : World) → HasString w.msg.names p → Went w (IsKept w) (not_null p c w)
  unfolding not_null
  not_null_goes none w h = (After-refl w, inr refl)
  not_null_goes (some i) w h = (After-refl w, (h, refl))

  stored_goes : (str : Bytes) (w : World) → Went w (IsKept w) ((put_string str >>= not_null) c w)
  unfolding ◌>>=◌ not_null
  stored_goes str w =
      goes_then _ _ _ _ (put_string_goes str w)
        (λ w' p g (h, d). after_put w' p (not_null_goes p w' h) d)
    where
      after_put :
          (w' : World) (p : Stored)
          → Went w' (IsKept w') (not_null p c w')
          → w'.dec ≡ w.dec
          → Went w' (IsKept w) (not_null p c w')
      after_put w' none r d = r
      after_put w' (some i) (g, (h, e)) d = (g, (h, d))

  pub keep_name_goes :
      (wptr : ℕ) (w : World) → HasText wptr w → Went w (IsKept w) (keep_name wptr c w)
  unfolding keep_name text_at ◌>>=◌
  keep_name_goes wptr w (s, e) =
      if_goes _ c.load_msg _ _ c w (rw e (stored_goes s w)) (After-refl w, (tt, refl))

  pub keep_bytes_goes :
      (len : ℕ) (w : World)
      → w.dec.offset + len ≤ length c.pkt_buf
      → Went w (IsKept w) (keep_bytes len c w)
  unfolding keep_bytes ◌>>=◌
  keep_bytes_goes len w h =
      let (s, e, n) = length-read_at w.dec.offset len c.pkt_buf h in
      if_goes _ c.load_msg _ _ c w (rw e (stored_goes s w)) (After-refl w, (tt, refl))
