-- ===== src/Dns/Decode/Runs/Switch.antt =====
-- The switch of `dns_rr_decode` of src/dns_proto.c in load mode: the types with several strings, and
-- all types together.
use c_dns_pkt.Prelude.{
  ℕ, zero, suc, ◌+◌, ◌-◌, ◌≤◌, ◌<◌, ◌≡◌, refl, ap, ◌∙◌, inl, inr, false, List, [], ◌∷◌, length,
  take, All, All-map, get_elem?-lt, Exec, ok, ltb, leb, ◌==◌, if◌then◌else◌, arith, Bool-cases,
  length-append,
}
use c_dns_pkt.Mem.{Bytes, splice, codes}
use c_dns_pkt.Mem.Laws.{length-splice}
use c_dns_pkt.Mem.Text.{length-take}
use c_dns_pkt.Words.Total.{dec_u32_total}
use c_dns_pkt.Dns.{dns_max_txt, dns_erdatalen}
use c_dns_pkt.Dns.Message.{Stored, ns, cname, ptr}
use c_dns_pkt.Dns.Message.Store.{HasString}
use c_dns_pkt.Dns.Message.Valid.{All-concat}
use c_dns_pkt.Dns.Decode.{Input, Decoder, World, Flow, next, and_then, ◌>>=◌, ◌>>◌, dns_msg_size}
use c_dns_pkt.Dns.Decode.Report.{printed, dns_tns, dns_cname, dns_soa, dns_hinfo, dns_txt}
use c_dns_pkt.Dns.Decode.Scratch.{scratch, text_at}
use c_dns_pkt.Dns.Decode.Rdata.{
  Text, here, literal, Rec, keep_rname, soa_value, decode_soa, string_len, skip, decode_hinfo,
  add_txt, txt_loop, decode_txt, root_text, decode_opt, decode_other, decode_rdata,
}
use c_dns_pkt.Dns.Decode.Runs.{
  After, After-refl, After-trans, After-dec, Went, HasText, goes_then, if_goes, kept, since,
  and_then_assoc,
}
use c_dns_pkt.Dns.Decode.Runs.Strings.{
  label_to_goes, keep_name_goes, keep_bytes_goes, scratch_lem, put_string_goes, not_null_goes,
}
use c_dns_pkt.Dns.Decode.Runs.Data.{
  IsFilled, Ready, error_then, describe_lem, describe_bytes_lem, advance_lem, name_then,
  decode_a_goes, decode_aaaa_goes, decode_one_name_goes, decode_mx_goes, decode_srv_goes,
}

-- What snprintf stores fits.
pub printed_fits : (avail : ℕ) (text : Bytes) → length (printed avail text) ≤ avail
unfolding printed
printed_fits zero text = omega arith
printed_fits (suc avail) text =
    omega (arith, length-append (take avail text) (0 ∷ []), length-take avail text)

module _ (c : Input) (quiet : c.need_emsg ≡ false) where
  print_lem :
      (wptr : ℕ) (w : World)
      → length w.dec.msg ≡ dns_msg_size
      → wptr ≤ dns_msg_size
      → (text : Bytes)
      → scratch wptr (printed (dns_msg_size - wptr) text) c w
        ≡ ok (
            next
              (record w {
                dec = record (w.dec) {
                  msg = splice wptr (printed (dns_msg_size - wptr) text) w.dec.msg;
                };
              })
              tt)
  print_lem wptr w sized h text =
      scratch_lem c w sized wptr _ (omega (arith, printed_fits (dns_msg_size - wptr) text))

  keep_rname_goes :
      (wptr : ℕ) (mname : Stored) (w : World)
      → HasText wptr w
      → HasString w.msg.names mname
      → Went w (λ w' p. HasString w'.msg.names p) (keep_rname wptr mname c w)
  unfolding keep_rname text_at ◌>>=◌
  keep_rname_goes wptr mname w (s, e) h =
      if_goes _ c.load_msg _ _ c w
        (rw e (
          goes_then _ _ _ _ (put_string_goes c s w) (λ w1 p g1 (q, d).
            goes_then _ _ _ _ (not_null_goes c mname w1 (kept w w1 mname g1 h))
              (λ w2 m g2 k. (After-refl w2, kept w1 w2 p g2 q)))))
        (After-refl w, tt)

  soa_value_lem :
      (label : Bytes) (wptr at : ℕ) (w : World)
      → at + 4 ≤ length c.pkt_buf
      → (val : ℕ) × (soa_value label (wptr, at) c w ≡ ok (next w (wptr, val)))
  unfolding soa_value ◌>>=◌
  soa_value_lem label wptr at w h =
      let (val, e) = dec_u32_total c.pkt_buf at h in (val, rw (e, describe_lem c quiet) refl)

  -- The length of a string: the string lies in the data.
  string_then :
      {A : Type 0} (Q : World → A → Type 0) (f : ℕ → World → Exec (Flow World A)) (field rd_end : ℕ)
      (w : World)
      → w.dec.offset < length c.pkt_buf
      → ((len : ℕ)
          → w.dec.offset + 1 + len ≤ rd_end
          → Went
              (record w { dec = record (w.dec) { offset = w.dec.offset + 1 } })
              Q
              (f len (record w { dec = record (w.dec) { offset = w.dec.offset + 1 } })))
      → Went w Q (and_then f (string_len field rd_end c w))
  unfolding string_len ◌>>=◌ ◌>>◌
  string_then Q f field rd_end w h k =
      let (len, e) = get_elem?-lt c.pkt_buf w.dec.offset h in
      rw e (
        rw (and_then_assoc, and_then_assoc, and_then_assoc)
          (since _ _ (After-dec w _ refl refl) (
            error_then _ _ (ltb rd_end (w.dec.offset + 1 + len)) field dns_erdatalen c _
              (λ short. k len (ground arith)))))

  module _ (v : Rec) (w : World) (r : Ready c v w) where
    decode_soa_goes : Went w (IsFilled v.sect_code) (decode_soa v c w)
    unfolding decode_soa ◌>>=◌ ◌>>◌
    decode_soa_goes = rw (describe_lem c quiet) (
        name_then c quiet _ _ dns_soa v.wptr w r.sized r.wptr (λ w1 rc mname g1 some_text fits h.
          rw (describe_lem c quiet) (
            goes_then _ _ _ _ (label_to_goes c dns_soa (v.wptr + rc) w1 (g1.size ∙ r.sized) fits)
              (λ w2 rc' g2 (long_rc, l, text).
                goes_then _ _ _ _
                  (keep_rname_goes (v.wptr + rc) mname w2 text (kept w1 w2 mname g2 h))
                  (λ w3 rname g3 q.
                    let g23 = After-trans w1 w2 w3 g2 g3 in
                    let g = After-trans w w1 w3 g1 g23 in
                    let name = kept w w3 v.rr_name g r.named in
                    rw (advance_lem c quiet (v.wptr + rc) rc' w3 (omega arith)) (
                      error_then _ _ _ _ _ c w3 (λ long.
                        let inside = r.inside in
                        let w4 = record w3 {
                          dec = record (w3.dec) { offset = w3.dec.offset + 20 };
                        } in
                        let at = w3.dec.offset in
                        let fits : at + 20 ≤ length c.pkt_buf = ground arith in
                        let wptr = v.wptr + rc + rc' in
                        let (serial, ea) =
                          soa_value_lem (codes "serial") wptr at w4 (omega arith) in
                        let (refresh, eb) =
                          soa_value_lem (codes "refresh") wptr (at + 4) w4 (omega arith) in
                        let (retry, ed) =
                          soa_value_lem (codes "retry") wptr (at + 8) w4 (omega arith) in
                        let (expire, ee) =
                          soa_value_lem (codes "expire") wptr (at + 12) w4 (omega arith) in
                        let (min_ttl, em) =
                          soa_value_lem (codes "min_ttl") wptr (at + 16) w4 (omega arith) in
                        rw (ea, eb, ed, ee, em)
                          (
                            After-dec w3 _ refl refl,
                            (name, (kept w1 w3 mname g23 h, q), refl, long_rc),
                          ))))))))

    decode_hinfo_goes : Went w (IsFilled v.sect_code) (decode_hinfo v c w)
    unfolding decode_hinfo skip ◌>>=◌ ◌>>◌
    decode_hinfo_goes = error_then _ _ _ _ _ c w (λ long.
        let inside = r.inside in
        let start = r.start in
        let more : w.dec.offset < length c.pkt_buf = ground arith in
        string_then _ _ dns_hinfo v.rd_end w more (λ len fits. rw (describe_bytes_lem c quiet) (
          goes_then _ _ _ _ (keep_bytes_goes c len _ (omega arith)) (λ w2 cpu g2 (h, d).
            since _ _ (After-dec w2 _ refl refl) (
              error_then _ _ _ _ _ c _ (λ rest.
                string_then _ _ dns_hinfo v.rd_end _ (ground arith) (λ len' fits'.
                  rw (describe_bytes_lem c quiet) (
                    goes_then _ _ _ _ (keep_bytes_goes c len' _ (omega arith)) (λ w4 os g4 (q, d').
                      let name = kept _ w2 v.rr_name g2 r.named in
                      (
                        After-dec w4 _ refl refl,
                        (kept _ w4 v.rr_name g4 name, (kept _ w4 cpu g4 h, q), refl, r.counted),
                      ))))))))))

    root_text_lem :
        (t : Text) (w' : World)
        → t ≡ here 0
        → 0 < length w'.dec.msg
        → (t' : Text) × (root_text t c w' ≡ ok (next w' t'))
    unfolding root_text ◌>>=◌
    root_text_lem t w' e h =
        let (b, q) = get_elem?-lt w'.dec.msg 0 h in
        ((if b == b'.' then literal (codes "<Root>") else here 0), rw (e, q) refl)

    decode_opt_goes : Went w (IsFilled v.sect_code) (decode_opt v c w)
    unfolding decode_opt ◌>>=◌ ◌>>◌
    decode_opt_goes = error_then _ _ _ _ _ c w (λ additional.
        goes_then _ _ _ _ (keep_name_goes c 0 w r.text) (λ w1 p g1 (h, d).
          let sized : length w1.dec.msg ≡ dns_msg_size = g1.size ∙ r.sized in
          let (t, e) = root_text_lem v.name w1 r.shown (omega arith) in
          rw (e, print_lem v.wptr w1 sized r.wptr)
            (After-dec w1 _ (length-splice v.wptr _ w1.dec.msg) refl, (h, tt, refl, omega arith))))

    decode_other_goes : Went w (IsFilled v.sect_code) (decode_other v c w)
    unfolding decode_other skip ◌>>=◌ ◌>>◌
    decode_other_goes = (After-dec w _ refl refl, (r.named, tt, refl, r.counted))

  abbrev IsTxt : World → World → ℕ × List Stored → Type 0
  IsTxt w w' (wptr, strs) = All (HasString w'.msg.names) strs × (length strs ≤ dns_max_txt)

  abbrev IsAdded : World → World → List Stored → Type 0
  IsAdded w w' strs =
      All (HasString w'.msg.names) strs × (length strs ≤ dns_max_txt) × (w'.dec ≡ w.dec)

  still :
      (w w' : World) (strs : List Stored)
      → After w w'
      → All (HasString w.msg.names) strs
      → All (HasString w'.msg.names) strs
  still w w' strs g =
      All-map (HasString w.msg.names) (HasString w'.msg.names) strs (λ s. kept w w' s g)

  add_txt_goes :
      (len : ℕ) (strs : List Stored) (w : World)
      → w.dec.offset + len ≤ length c.pkt_buf
      → All (HasString w.msg.names) strs
      → length strs ≤ dns_max_txt
      → Went w (IsAdded w) (add_txt len strs c w)
  unfolding add_txt ◌>>=◌
  add_txt_goes len strs w fits h l =
      if_goes _ c.load_msg _ _ c w
        (elim (Bool-cases (leb dns_max_txt (length strs))) [
          | inl full ↦ rw full (After-refl w, inr refl)
          | inr room ↦ rw room (
              goes_then _ _ _ _ (keep_bytes_goes c len w fits) (λ w' p g (q, d). (
                After-refl w',
                (
                  All-concat (HasString w'.msg.names) strs p (still w w' strs g h) q,
                  ground (arith, length-append strs (p ∷ [])),
                  d,
                ),
              )))
        ])
        (After-refl w, (h, l, refl))

  txt_loop_goes :
      (fuel rd_end wptr : ℕ) (strs : List Stored) (w : World)
      → rd_end - w.dec.offset < fuel
      → rd_end ≤ length c.pkt_buf
      → All (HasString w.msg.names) strs
      → length strs ≤ dns_max_txt
      → Went w (IsTxt w) (txt_loop fuel rd_end wptr strs c w)
  unfolding txt_loop skip ◌>>=◌ ◌>>◌
  txt_loop_goes zero rd_end wptr strs w f inside h l = absurd (omega arith)
  txt_loop_goes (suc fuel) rd_end wptr strs w f inside h l =
      elim (Bool-cases (ltb w.dec.offset rd_end)) [
        | inr done ↦ rw done (After-refl w, (h, l))
        | inl more ↦
            let below : w.dec.offset < rd_end = ground arith in
            rw more (
              string_then _ _ dns_txt rd_end w (omega arith) (λ len fits.
                rw (describe_bytes_lem c quiet) (
                  goes_then _ _ _ _ (add_txt_goes len strs _ (omega arith) h l)
                    (λ w2 strs' g2 (h', l', d). since _ _ (After-dec w2 _ refl refl) (
                      txt_loop_goes fuel rd_end wptr strs' _
                        (omega (arith, ap (λ (dec : Decoder). dec.offset) d)) inside h' l')))))
      ]

  decode_txt_goes :
      (v : Rec) (w : World) → Ready c v w → Went w (IsFilled v.sect_code) (decode_txt v c w)
  unfolding decode_txt ◌>>=◌
  decode_txt_goes v w r =
      goes_then _ _ _ _
        (txt_loop_goes (suc (v.rd_end - w.dec.offset)) v.rd_end v.wptr v.held w (omega arith)
          r.inside r.held r.held_len)
        (λ w' (wptr, strs) g q.
          (After-refl w', (kept w w' v.rr_name g r.named, q, refl, r.counted)))

  -- Every branch of the switch stays within its buffers, and fills the record with valid data or
  -- ends the run with an error.
  pub decode_rdata_goes :
      (v : Rec) (w : World) → Ready c v w → Went w (IsFilled v.sect_code) (decode_rdata v c w)
  unfolding decode_rdata
  decode_rdata_goes v w r = if_goes _ (v.rr_type == 1) _ _ c w (decode_a_goes c quiet v w r) (
      if_goes _ (v.rr_type == 2) _ _ c w
        (decode_one_name_goes c quiet v w r dns_tns ns (λ n p h. h))
        (if_goes _ (v.rr_type == 5) _ _ c w
          (decode_one_name_goes c quiet v w r dns_cname cname (λ n p h. h))
          (if_goes _ (v.rr_type == 6) _ _ c w (decode_soa_goes v w r) (
            if_goes _ (v.rr_type == 12) _ _ c w
              (decode_one_name_goes c quiet v w r dns_cname ptr (λ n p h. h))
              (if_goes _ (v.rr_type == 13) _ _ c w (decode_hinfo_goes v w r) (
                if_goes _ (v.rr_type == 15) _ _ c w (decode_mx_goes c quiet v w r) (
                  if_goes _ (v.rr_type == 16) _ _ c w (decode_txt_goes v w r) (
                    if_goes _ (v.rr_type == 28) _ _ c w (decode_aaaa_goes c quiet v w r) (
                      if_goes _ (v.rr_type == 33) _ _ c w (decode_srv_goes c quiet v w r) (
                        if_goes _ (v.rr_type == 41) _ _ c w (decode_opt_goes v w r)
                          (decode_other_goes v w r)))))))))))
