-- ===== src/Dns/Decode/Runs/Records.antt =====
-- `dns_rr_decode` and `dns_sect_decode` of src/dns_proto.c in load mode.
use c_dns_pkt.Prelude.{
  ℕ, zero, suc, ◌+◌, ◌≤◌, ◌<◌, ◌≡◌, refl, sym, ap, ◌⊎◌, inl, inr, ◌^◌, ◌%◌, [], ◌∷◌, length, ok,
  leb, ℤ, pos, negsuc, arith, Bool-cases, length-append,
}
use mathlib.Core.Path.{subst}
use c_dns_pkt.Mem.{Bytes, c_string}
use c_dns_pkt.Words.Total.{dec_u16_total, dec_u32_total}
use c_dns_pkt.Dns.{dns_max_rr}
use c_dns_pkt.Dns.Message.{Stored, Rr, Msg}
use c_dns_pkt.Dns.Message.Store.{HasString}
use c_dns_pkt.Dns.Message.Valid.{RrValid}
use c_dns_pkt.Dns.Decode.{Input, Decoder, World, ◌>>=◌, ◌>>◌, dns_msg_size}
use c_dns_pkt.Dns.Decode.Report.{dns_name, dns_pdu, dns_ec_isrow}
use c_dns_pkt.Dns.Decode.Record.{
  sect_list, sect_add, count_record, decode_fields, dns_rr_decode, or_row, sect_rows,
  dns_sect_decode,
}
use c_dns_pkt.Dns.Decode.Runs.{After, IsCode, HasText, fail_with_goes}
use c_dns_pkt.Dns.Decode.Runs.Strings.{label_to_goes, keep_name_goes}
use c_dns_pkt.Dns.Decode.Runs.Data.{advance_lem}
use c_dns_pkt.Dns.Decode.Runs.Switch.{decode_rdata_goes}
use c_dns_pkt.Dns.Decode.Runs.Loaded.{
  Rows, one_more, Good, Ends, Coded, dec-Good, one_more-Good, Ends-then, goes-Ends, fail-Ends,
  error-Ends, call-Ends, call-Coded, load_input, NoWrap, sect_add-IsValid,
}

sect_list-After :
    (w w' : World) (sect_code : ℕ)
    → After w w'
    → length (sect_list sect_code w'.msg) ≡ length (sect_list sect_code w.msg)
sect_list-After w w' sect_code g = ap (λ (m : Msg). length (sect_list sect_code m)) g.same

-- A record is added where there is room.
sect_add-Good :
    (sect_code : ℕ) (rr : Rr Stored) (b : Rows) (w : World)
    → Good b w
    → length (sect_list sect_code w.msg) < dns_max_rr
    → RrValid w.msg.names rr
    → Good (one_more sect_code b) (record w { msg = sect_add sect_code rr w.msg })
sect_add-Good sect_code rr b w h room v =
    let valid = sect_add-IsValid sect_code rr w.msg h.valid room v in
    let l = h.an_rows in
    let m = h.ns_rows in
    let n = h.ar_rows in
    let more = length-append w.msg.an (rr ∷ []) in
    let more' = length-append w.msg.ns (rr ∷ []) in
    let more'' = length-append w.msg.ar (rr ∷ []) in
    record {
      valid = valid;
      sized = h.sized;
      errs = h.errs;
      an_rows = ground arith;
      ns_rows = ground arith;
      ar_rows = ground arith;
    }

-- A record that is loaded gives a code above 0.
abbrev Loaded : ℕ → Rows → World → ℤ → Type 0
Loaded sect_code b w rc = Good (one_more sect_code b) w × ((n : ℕ) × (rc ≡ pos (suc n)))

-- A row that is loaded ends the loop, and so does a row whose error is not noted.
or_row-Ends :
    (sect_code i : ℕ) (b : Rows) (rc : ℤ) (c : Input) (w : World)
    → Loaded sect_code b w rc ⊎ Good b w × IsCode rc
    → Ends (λ w' u. Good b w') (one_more sect_code b) (or_row sect_code i rc c w)
unfolding or_row
or_row-Ends sect_code i b (pos zero) c w (inl (h, (n, e))) = absurd (cc)
or_row-Ends sect_code i b (pos zero) c w (inr (h, code)) = h
or_row-Ends sect_code i b (pos (suc n)) c w (inl (h, e)) =
    fail-Ends _ _ _ w h (fail_with_goes _ dns_pdu sect_code (pos (i + dns_ec_isrow)) c w)
or_row-Ends sect_code i b (pos (suc n)) c w (inr (h, code)) =
    fail-Ends _ _ _ w (one_more-Good sect_code b w h)
      (fail_with_goes _ dns_pdu sect_code (pos (i + dns_ec_isrow)) c w)
or_row-Ends sect_code i b (negsuc n) c w (inl (h, (m, e))) = absurd (cc)
or_row-Ends sect_code i b (negsuc n) c w (inr (h, code)) =
    fail-Ends _ _ _ w (one_more-Good sect_code b w h)
      (fail_with_goes _ dns_pdu sect_code (pos (i + dns_ec_isrow)) c w)

positive : (n : ℕ) → 0 < n → (m : ℕ) × (◌≡◌ {A = ℤ} (pos n) (pos (suc m)))
positive zero h = absurd (omega arith)
positive (suc m) h = (m, refl)

module _ (pkt : Bytes) (no_wrap : NoWrap pkt) where
  abbrev c : Input
  c = load_input pkt

  decode_fields-Ends :
      (sect_code rc wptr : ℕ) (rr_name : Stored) (b : Rows) (w : World)
      → Good b w
      → 0 < rc
      → wptr ≤ dns_msg_size
      → HasText 0 w
      → HasString w.msg.names rr_name
      → length (sect_list sect_code w.msg) < dns_max_rr
      → Ends (Loaded sect_code b) b (decode_fields sect_code [] rc wptr rr_name c w)
  unfolding decode_fields count_record ◌>>=◌ ◌>>◌
  decode_fields-Ends sect_code rc wptr rr_name b w h some_text fits text named room =
      error-Ends _ _ _ _ _ c w h (λ whole.
        let inside : w.dec.offset + 10 ≤ length pkt = ground arith in
        let (rr_type, e) = dec_u16_total pkt w.dec.offset (omega arith) in
        let (rr_class, e') = dec_u16_total pkt (w.dec.offset + 2) (omega arith) in
        let (rr_ttl, e'') = dec_u32_total pkt (w.dec.offset + 4) (omega arith) in
        let (rdlen, q) = dec_u16_total pkt (w.dec.offset + 8) (omega arith) in
        let small : w.dec.offset + 8 + 2 + rdlen < 2 ^ 16 = no_wrap (w.dec.offset + 8) rdlen q in
        let rd_end : (w.dec.offset + 10 + rdlen) % 2 ^ 16 ≡ w.dec.offset + 10 + rdlen =
          omega arith in
        let moved = dec-Good b w (record (w.dec) { offset = w.dec.offset + 10 }) refl refl h in
        rw (e, e', e'', q)
          (error-Ends _ _ _ _ _ c _ moved (λ within.
            goes-Ends _ _ _ _ moved
              (decode_rdata_goes c refl _ _ (record {
                sized = h.sized;
                wptr = fits;
                start = sym rd_end;
                inside = ground arith;
                named = named;
                text = text;
                held = tt;
                held_len = omega arith;
                shown = refl;
                counted = some_text;
              }))
              (λ w' v g k (p, d, s, above). error-Ends _ _ _ _ _ c w' k (λ consumed. rw s (
                sect_add-Good sect_code _ b w' k (omega (arith, sect_list-After _ w' sect_code g))
                    (p, d),
                positive v.rc above,
              ))))))

  dns_rr_decode-Ends :
      (sect_code : ℕ) (b : Rows) (w : World)
      → Good b w
      → Ends (Loaded sect_code b) b (dns_rr_decode sect_code [] c w)
  unfolding dns_rr_decode ◌>>=◌ ◌>>◌
  dns_rr_decode-Ends sect_code b w h =
      elim (Bool-cases (leb dns_max_rr (length (sect_list sect_code w.msg)))) [
        | inl full ↦ rw full (h, inr refl)
        | inr room ↦
            let below : length (sect_list sect_code w.msg) < dns_max_rr = ground arith in
            rw room (
              goes-Ends _ _ _ _ h (label_to_goes c dns_name 0 w h.sized (omega arith))
                (λ w1 rc g1 h1 (long, l, text).
                  rw (advance_lem c refl 0 (rc + 1) w1 (omega arith)) (
                    goes-Ends _ _ _ _ h1 (keep_name_goes c 0 w1 text) (λ w2 p g2 h2 (q, d).
                      decode_fields-Ends sect_code rc (0 + (rc + 1)) p b w2 h2 long (omega arith)
                        (subst (λ (dec : Decoder). (s : Bytes) × (c_string 0 dec.msg ≡ ok s))
                          (sym d) text)
                        q
                        (omega (
                          arith,
                          sect_list-After w w1 sect_code g1,
                          sect_list-After w1 w2 sect_code g2,
                        ))))))
      ]

  -- A section is read to its end, to its first record, or to an error that is not noted.
  sect_rows-Coded :
      (sect_code left i : ℕ) (b : Rows) (w : World)
      → Good b w
      → Coded (one_more sect_code b) (sect_rows sect_code left i c w)
  unfolding sect_rows ◌>>=◌ ◌>>◌
  sect_rows-Coded sect_code zero i b w h = (one_more-Good sect_code b w h, inl refl)
  sect_rows-Coded sect_code (suc left) i b w h =
      Ends-then _ _ _ (one_more sect_code b) _
        (call-Ends _ b (one_more sect_code b) (dns_rr_decode sect_code []) c w
          (dns_rr_decode-Ends sect_code b w h))
        (λ w1 rc r.
          Ends-then _ _ _ (one_more sect_code b) _ (or_row-Ends sect_code i b rc c w1 r)
            (λ w2 u h2. sect_rows-Coded sect_code left (i + 1) b w2 h2))

  pub dns_sect_decode-Coded :
      (nrec sect_code : ℕ) (b : Rows) (w : World)
      → Good b w
      → Coded (one_more sect_code b) (dns_sect_decode nrec sect_code c w)
  unfolding dns_sect_decode
  dns_sect_decode-Coded nrec sect_code b w h =
      call-Coded _ (sect_rows sect_code nrec 0) c w (sect_rows-Coded sect_code nrec 0 b w h)
