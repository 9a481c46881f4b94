-- ===== src/Dns/Decode/Runs/Data.antt =====
-- The data of a record that `decode_rdata` of the model of src/dns_proto.c fills, in load mode: each
-- type's branch on a record whose data lies in the packet.
use c_dns_pkt.Prelude.{
  ℕ, ◌+◌, ◌≤◌, ◌<◌, ◌≡◌, refl, inl, inr, Bool, true, false, [], length, All, Exec, ok, pos, arith,
  Bool-cases,
}
use c_dns_pkt.Mem.{Bytes}
use c_dns_pkt.Mem.Laws.{length-read_at}
use c_dns_pkt.Words.Total.{dec_u16_total}
use c_dns_pkt.Dns.{dns_max_txt}
use c_dns_pkt.Dns.Message.{Stored, Rdata}
use c_dns_pkt.Dns.Message.Store.{HasString}
use c_dns_pkt.Dns.Message.Valid.{RdataValid}
use c_dns_pkt.Dns.Decode.{Input, World, Flow, next, and_then, ◌>>=◌, ◌>>◌, dns_msg_size}
use c_dns_pkt.Dns.Decode.Report.{dns_rr, dns_mx, dns_srv}
use c_dns_pkt.Dns.Decode.Scratch.{label_to, keep_name, advance, describe}
use c_dns_pkt.Dns.Decode.Rdata.{
  here, Rec, error_if, keep_mem, describe_ip4, decode_a, decode_aaaa, decode_one_name,
  describe_bytes, skip, decode_mx, decode_srv,
}
use c_dns_pkt.Dns.Decode.Runs.{
  After, After-refl, After-dec, Went, HasText, goes_then, fail_with_goes, kept, since, After-trans,
}
use c_dns_pkt.Dns.Decode.Runs.Strings.{label_to_goes, keep_name_goes}

-- The record is filled with data that is valid, for the same section, and `rc` is not 0.
abbrev pub IsFilled : ℕ → World → Rec → Type 0
IsFilled sect_code w v =
    HasString w.msg.names v.rr_name
    × RdataValid w.msg.names v.rdata
    × (v.sect_code ≡ sect_code)
    × (0 < v.rc)

-- What holds where the switch begins: the data lies in the packet, and the buffers hold what they
-- are to hold.
pub record Ready (c : Input) (v : Rec) (w : World) : Type 0 where
  pub sized : length w.dec.msg ≡ dns_msg_size
  pub wptr : v.wptr ≤ dns_msg_size
  pub start : w.dec.offset + v.rdlen ≡ v.rd_end
  pub inside : v.rd_end ≤ length c.pkt_buf
  pub named : HasString w.msg.names v.rr_name
  pub text : HasText 0 w
  pub held : All (HasString w.msg.names) v.held
  pub held_len : length v.held ≤ dns_max_txt
  pub shown : v.name ≡ here 0
  pub counted : 0 < v.rc

-- A test that ends the run with an error where it holds.
pub error_then :
    {A : Type 0} (Q : World → A → Type 0) (f : Unit → World → Exec (Flow World A)) (b : Bool)
    (field ec : ℕ) (c : Input) (w : World)
    → ((b ≡ false) → Went w Q (f tt w))
    → Went w Q (and_then f (error_if b field ec c w))
unfolding error_if
error_then Q f true field ec c w k =
    goes_then (λ w' u. ⊥) Q f _ (fail_with_goes _ dns_rr field (pos ec) c w) (λ w' u g q. absurd q)
error_then Q f false field ec c w k = k refl

module _ (c : Input) (quiet : c.need_emsg ≡ false) where
  pub describe_lem :
      (wptr : ℕ) (text : Bytes) (w : World) → describe wptr text c w ≡ ok (next w wptr)
  unfolding describe ◌>>=◌
  describe_lem wptr text w = simp quiet refl

  pub describe_bytes_lem :
      (label : Bytes) (len wptr : ℕ) (w : World)
      → describe_bytes label len wptr c w ≡ ok (next w wptr)
  unfolding describe_bytes ◌>>=◌
  describe_bytes_lem label len wptr w = simp quiet refl

  pub describe_ip4_lem :
      (rdata : ℕ) (v : Rec) (w : World) → describe_ip4 rdata v c w ≡ ok (next w v.rdata_desc)
  unfolding describe_ip4 ◌>>=◌
  describe_ip4_lem rdata v w = simp quiet refl

  pub advance_lem :
      (wptr rc : ℕ) (w : World)
      → wptr + rc ≤ dns_msg_size
      → advance wptr rc c w ≡ ok (next w (wptr + rc))
  unfolding advance
  advance_lem wptr rc w h = ground arith

  pub keep_mem_lem :
      (len : ℕ) (w : World)
      → w.dec.offset + len ≤ length c.pkt_buf
      → (bs : Bytes) × (keep_mem len c w ≡ ok (next w bs))
  unfolding keep_mem ◌>>=◌
  keep_mem_lem len w h =
      let (bs, e, n) = length-read_at w.dec.offset len c.pkt_buf h in
      elim (Bool-cases c.load_msg) [ inl l ↦ (bs, simp (l, e) refl) | inr l ↦ ([], simp l refl) ]

  -- A name is decoded at `wptr` and kept, and `wptr` moves behind its text.
  pub name_then :
      {A : Type 0} (Q : World → A → Type 0) (f : ℕ → Stored → ℕ → World → Exec (Flow World A))
      (field wptr : ℕ) (w : World)
      → length w.dec.msg ≡ dns_msg_size
      → wptr ≤ dns_msg_size
      → ((w' : World) (rc : ℕ) (p : Stored)
          → After w w'
          → 0 < rc
          → wptr + rc ≤ dns_msg_size
          → HasString w'.msg.names p
          → Went w' Q (f rc p (wptr + rc) w'))
      → Went w Q (
          and_then
            (λ rc w1.
              and_then
                (λ p w2. and_then (λ end w3. f rc p end w3) (advance wptr rc c w2))
                (keep_name wptr c w1))
            (label_to field wptr c w))
  name_then Q f field wptr w sized h k =
      goes_then _ _ _ _ (label_to_goes c field wptr w sized h) (λ w1 rc g1 (long, l, text).
        goes_then _ _ _ _ (keep_name_goes c wptr w1 text) (λ w2 p g2 (q, d).
          let fits : wptr + rc ≤ dns_msg_size = omega arith in
          rw (advance_lem wptr rc w2 fits) (k w2 rc p (After-trans w w1 w2 g1 g2) long fits q)))

  module _ (v : Rec) (w : World) (r : Ready c v w) where
    pub decode_a_goes : Went w (IsFilled v.sect_code) (decode_a v c w)
    unfolding decode_a ◌>>=◌ ◌>>◌
    decode_a_goes = error_then _ _ _ _ _ c w (λ four.
        let inside = r.inside in
        let start = r.start in
        let fits : w.dec.offset + 4 ≤ length c.pkt_buf = ground arith in
        let (bs, e) = keep_mem_lem 4 w fits in
        rw (e, describe_ip4_lem) (After-dec w _ refl refl, (r.named, tt, refl, r.counted)))

    pub decode_aaaa_goes : Went w (IsFilled v.sect_code) (decode_aaaa v c w)
    unfolding decode_aaaa ◌>>=◌ ◌>>◌
    decode_aaaa_goes = error_then _ _ _ _ _ c w (λ sixteen.
        let inside = r.inside in
        let start = r.start in
        let fits : w.dec.offset + 16 ≤ length c.pkt_buf = ground arith in
        let (bs, e) = keep_mem_lem 16 w fits in
        rw (e, describe_ip4_lem) (After-dec w _ refl refl, (r.named, tt, refl, r.counted)))

    pub decode_one_name_goes :
        (field : ℕ) (rdata : Stored → Rdata Stored)
        → ((names : Bytes) (p : Stored) → HasString names p → RdataValid names (rdata p))
        → Went w (IsFilled v.sect_code) (decode_one_name field rdata v c w)
    unfolding decode_one_name ◌>>=◌
    decode_one_name_goes field rdata valid =
        name_then _ _ field v.wptr w r.sized r.wptr (λ w' rc p g some_text fits q.
          (After-refl w', (kept w w' v.rr_name g r.named, valid w'.msg.names p q, refl, some_text)))

    pub decode_mx_goes : Went w (IsFilled v.sect_code) (decode_mx v c w)
    unfolding decode_mx skip ◌>>=◌ ◌>>◌
    decode_mx_goes = error_then _ _ _ _ _ c w (λ long.
        let inside = r.inside in
        let start = r.start in
        let fits : w.dec.offset + 2 ≤ length c.pkt_buf = ground arith in
        let (pref, e) = dec_u16_total c.pkt_buf w.dec.offset fits in
        rw (e, describe_lem)
          (since _ _ (After-dec w _ refl refl) (
            name_then _ _ dns_mx v.wptr _ r.sized r.wptr (λ w' rc p g some_text fits q.
              (After-refl w', (kept _ w' v.rr_name g r.named, q, refl, some_text))))))

    pub decode_srv_goes : Went w (IsFilled v.sect_code) (decode_srv v c w)
    unfolding decode_srv skip ◌>>=◌ ◌>>◌
    decode_srv_goes = error_then _ _ _ _ _ c w (λ long.
        let inside = r.inside in
        let start = r.start in
        let fits : w.dec.offset + 6 ≤ length c.pkt_buf = ground arith in
        let (prior, e) = dec_u16_total c.pkt_buf w.dec.offset (omega arith) in
        let (weight, e') = dec_u16_total c.pkt_buf (w.dec.offset + 2) (omega arith) in
        let (port, e'') = dec_u16_total c.pkt_buf (w.dec.offset + 4) (omega arith) in
        rw (e, e', e'', describe_lem)
          (since _ _ (After-dec w _ refl refl) (
            name_then _ _ dns_srv v.wptr _ r.sized r.wptr (λ w' rc p g some_text fits q.
              (After-refl w', (kept _ w' v.rr_name g r.named, q, refl, some_text))))))
