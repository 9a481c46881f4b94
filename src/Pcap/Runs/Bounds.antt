-- ===== src/Pcap/Runs/Bounds.antt =====
-- What pcap_read of src/pcap.c puts into the buffer of its caller.
use c_dns_pkt.Prelude.{
  ℕ, zero, suc, ◌-◌, ◌≤◌, ◌<◌, ◌≡◌, ◌≢◌, refl, ◌∙◌, sym, Bool, false, ◌||◌, length, Exec, ok, fault,
  stuck, ◌==◌, ℤ, pos, negsuc, arith,
}
use c_dns_pkt.Mem.{Bytes}
use c_dns_pkt.Pcap.{
  PcapFile, Act, Flow, next, leave, and_then, ended, ◌>>=◌, ◌>>◌, call, leave_if, pcap_read_data,
  pcap_read_block, pcap_data_skip, pcap_fail, pcap_shb_type,
}
use c_dns_pkt.Pcap.Legacy.{pcap_read_rec}
use c_dns_pkt.Pcap.Read.{
  zeroed, read_packet, pcap_read_shb, pcap_read_idb, pcap_read_spb, pcap_read_epb, pcap_read_dsb,
  pcap_skip_block, pcap_peek_block, xpb_loop, on_peek, on_block, or_fail, pcap_read_xpb,
}
use c_dns_pkt.Pcap.Api.{pcap_read, count_read}
use c_dns_pkt.Pcap.Runs.{
  Finishes, goes_then, Coded, Nexts, goes_ended, Same, IsNegative, Read, if_act, goes_unless,
  pcap_read_data-Read, pcap_read_block-Read, pcap_peek_block-Peeked, Peeked, Forward,
  pcap_read_shb-Forward, pcap_read_idb-Forward, pcap_skip_block-Forward,
}

-- The code of a call that reads a packet into a buffer of `len` bytes.
pub Filled : ℕ → PcapFile → PcapFile → ℤ → Type 0
Filled len file file' (pos n) = Same file file' × (n ≤ len) × (n ≢ 0 → length file'.buf ≡ n)
Filled len file file' (negsuc n) = Same file file'

nothing-Filled : (len : ℕ) (file file' : PcapFile) → Same file file' → Filled len file file' (pos 0)
unfolding Filled
nothing-Filled len file file' same = (same, omega arith, λ h. absurd (h refl))

negative-Filled :
    (len : ℕ) (file file' : PcapFile) (rc : ℤ)
    → Same file file'
    → IsNegative rc
    → Filled len file file' rc
unfolding Filled IsNegative
negative-Filled len file file' (pos n) same h = elim h [ ]
negative-Filled len file file' (negsuc n) same h = same

-- A read whose failure returns 0.
ZeroRead : ℕ → PcapFile → Flow PcapFile Bytes → Type 0
ZeroRead n file (next file' bs) = Same file file' × (length bs ≡ n)
ZeroRead n file (leave file' rc) = Same file file' × (rc ≡ pos 0)

goes_zero :
    (n : ℕ) (file : PcapFile) (r : Exec (Flow PcapFile Bytes))
    → Finishes (Read n file) r
    → Finishes (ZeroRead n file) (zeroed r)
unfolding Finishes Read ZeroRead
goes_zero n file (ok (next file' bs)) (same, at, len, room) = (same, len)
goes_zero n file (ok (leave file' rc)) (same, neg) = (same, refl)
goes_zero n file fault q = q
goes_zero n file stuck q = q

module _ (len : ℕ) (file : PcapFile) where
  -- A read within a reader of packets.
  zero_then :
      (n : ℕ) (f : Bytes → Act ℤ) (file1 : PcapFile) (r : Exec (Flow PcapFile Bytes))
      → Same file file1
      → Finishes (Read n file1) r
      → ((bs : Bytes) (file' : PcapFile)
          → Same file file'
          → length bs ≡ n
          → Finishes (Coded (Filled len file)) (f bs file'))
      → Finishes (Coded (Filled len file)) (and_then f (zeroed r))
  unfolding ZeroRead Coded Same
  zero_then n f file1 r same h on =
      goes_then (ZeroRead n file1) (Coded (Filled len file)) f (zeroed r) (goes_zero n file1 r h)
        (λ bs file' (s, l). on bs file' (s ∙ same) l)
        (λ file' rc (s, z). rw z (nothing-Filled len file file' (s ∙ same)))

  read_packet-Filled :
      (cap_len skip_len : ℕ) (file1 : PcapFile)
      → Same file file1
      → cap_len ≤ len
      → Finishes (Coded (Filled len file)) (read_packet cap_len skip_len file1)
  unfolding read_packet ◌>>=◌ ◌>>◌ pcap_data_skip Finishes Coded Filled Same
  read_packet-Filled cap_len skip_len file1 same fits =
      zero_then cap_len _ file1 (pcap_read_data cap_len file1) same
        (pcap_read_data-Read cap_len file1) (λ bs file' s l. (s, fits, λ h. l))

  -- `if (b) return 0;`
  unless_zero :
      (b : Bool) (f : Unit → Act ℤ) (file1 : PcapFile)
      → Same file file1
      → (b ≡ false → Finishes (Coded (Filled len file)) (f tt file1))
      → Finishes (Coded (Filled len file)) (and_then f (leave_if b (pos 0) file1))
  unfolding Coded
  unless_zero b f file1 same k =
      goes_unless (Coded (Filled len file)) b (pos 0) f file1
        (λ e. nothing-Filled len file file1 same) k

  pcap_read_spb-Filled :
      (file1 : PcapFile)
      → Same file file1
      → Finishes (Coded (Filled len file)) (pcap_read_spb len file1)
  unfolding pcap_read_spb ◌>>=◌ ◌>>◌
  pcap_read_spb-Filled file1 same = unless_zero _ _ file1 same (λ e.
      zero_then 12 _ file1 (pcap_read_block 12 file1) same (pcap_read_block-Read 12 file1)
        (λ bs file' s l.
          unless_zero _ _ file' s
            (λ e. unless_zero _ _ file' s (λ e. read_packet-Filled _ _ file' s (ground arith)))))

  pcap_read_epb-Filled :
      (file1 : PcapFile)
      → Same file file1
      → Finishes (Coded (Filled len file)) (pcap_read_epb len file1)
  unfolding pcap_read_epb ◌>>=◌ ◌>>◌
  pcap_read_epb-Filled file1 same = unless_zero _ _ file1 same (λ e.
      zero_then 28 _ file1 (pcap_read_block 28 file1) same (pcap_read_block-Read 28 file1)
        (λ bs file' s l.
          unless_zero _ _ file' s
            (λ e. unless_zero _ _ file' s (λ e. read_packet-Filled _ _ file' s (ground arith)))))

  pcap_read_dsb-Filled :
      (file1 : PcapFile)
      → Same file file1
      → Finishes (Coded (Filled len file)) (pcap_read_dsb len file1)
  unfolding pcap_read_dsb ◌>>=◌ ◌>>◌
  pcap_read_dsb-Filled file1 same = unless_zero _ _ file1 same (λ e.
      zero_then 16 _ file1 (pcap_read_block 16 file1) same (pcap_read_block-Read 16 file1)
        (λ bs file' s l.
          unless_zero _ _ file' s
            (λ e. unless_zero _ _ file' s (λ e. read_packet-Filled _ _ file' s (ground arith)))))

  -- The rest of the loop, from a file that has gone forward.
  abbrev FromHere : ℕ → Type 0
  FromHere fuel =
      (file1 : PcapFile)
      → Same file file1
      → length file.fp.content - file1.fp.at < fuel
      → Finishes (Coded (Filled len file)) (xpb_loop fuel len file1)

  -- A block that is passed: `if (rc) return -1;`, then the next round.
  passed_then :
      (fuel : ℕ) (file1 : PcapFile) (body : Act ℤ)
      → Same file file1
      → file1.fp.at < length file.fp.content
      → length file.fp.content - file1.fp.at < suc fuel
      → FromHere fuel
      → Finishes (Coded (Forward file1)) (body file1)
      → Finishes
          (Coded (Filled len file))
          ((do rc ← call body; or_fail rc; xpb_loop fuel len) file1)
  unfolding Forward Nexts Same Coded Filled call ◌>>=◌ ◌>>◌ or_fail Finishes
  passed_then fuel file1 body same inside enough rest h =
      goes_then (Nexts (Forward file1)) (Coded (Filled len file)) _ (ended (body file1))
        (goes_ended (Forward file1) (body file1) h) (λ rc file' (s, far). on_rc rc file' s far)
        (λ file' rc q. elim q [ ])
    where
      on_rc :
          (rc : ℤ) (file' : PcapFile)
          → Same file1 file'
          → (rc ≡ pos 0 → file1.fp.at < file'.fp.at)
          → Finishes
              (Coded (Filled len file))
              (and_then (λ a. xpb_loop fuel len) (or_fail rc file'))
      on_rc (pos zero) file' s far = let on = far refl in rest file' (s ∙ same) (omega arith)
      on_rc (pos (suc n)) file' s far = s ∙ same
      on_rc (negsuc n) file' s far = s ∙ same

  on_peek-Filled :
      (fuel : ℕ) (type : ℤ) (file1 file2 : PcapFile)
      → Same file file1
      → Peeked file1 file2 type
      → length file.fp.content - file1.fp.at < suc fuel
      → FromHere fuel
      → Finishes (Coded (Filled len file)) (on_peek type len (xpb_loop fuel len) file2)
  unfolding Peeked on_peek on_block Same Finishes Coded
  on_peek-Filled fuel (negsuc n) file1 file2 same q enough rest =
      nothing-Filled len file file2 (q ∙ same)
  on_peek-Filled fuel (pos type) file1 file2 same (s, at, inside) enough rest =
      let same2 : file2.fp.content ≡ file.fp.content = s ∙ same in
      let here : file1.fp.at < length file.fp.content = rw (sym same) inside in
      let in2 : file2.fp.at < length file.fp.content = omega arith in
      let enough2 : length file.fp.content - file2.fp.at < suc fuel = omega arith in
      let Q = Coded (Filled len file) in
      if_act Q (type == pcap_shb_type) _ _ file2
        (λ e.
          passed_then fuel file2 pcap_read_shb same2 in2 enough2 rest (pcap_read_shb-Forward file2))
        (λ e.
          if_act Q (type == 1) _ _ file2
            (λ e.
              passed_then fuel file2 pcap_read_idb same2 in2 enough2 rest
                (pcap_read_idb-Forward file2))
            (λ e.
              if_act Q (type == 3) _ _ file2 (λ e. pcap_read_spb-Filled file2 same2)
                (λ e.
                  if_act Q (type == 6) _ _ file2 (λ e. pcap_read_epb-Filled file2 same2)
                    (λ e.
                      if_act Q (type == 10) _ _ file2 (λ e. pcap_read_dsb-Filled file2 same2)
                        (λ e.
                          passed_then fuel file2 pcap_skip_block same2 in2 enough2 rest
                            (pcap_skip_block-Forward file2))))))

  xpb_loop-Filled : (fuel : ℕ) → FromHere fuel
  unfolding xpb_loop ◌>>=◌ Nexts
  xpb_loop-Filled zero file1 same h = absurd (omega arith)
  xpb_loop-Filled (suc fuel) file1 same h =
      goes_then (Nexts (Peeked file1)) (Coded (Filled len file)) _ (call pcap_peek_block file1)
        (pcap_peek_block-Peeked file1)
        (λ type file2 q. on_peek-Filled fuel type file1 file2 same q h (xpb_loop-Filled fuel))
        (λ file' rc q. elim q [ ])

  pcap_read_xpb-Filled : Finishes (Coded (Filled len file)) (pcap_read_xpb len file)
  unfolding pcap_read_xpb Same
  pcap_read_xpb-Filled = xpb_loop-Filled (suc (length file.fp.content)) file refl (omega arith)

  pcap_read_rec-Filled : Finishes (Coded (Filled len file)) (pcap_read_rec len file)
  unfolding pcap_read_rec ◌>>=◌ ◌>>◌ Finishes Coded Filled Same Read
  pcap_read_rec-Filled =
      goes_then (Read 16 file) (Coded (Filled len file)) _ (pcap_read_block 16 file)
        (pcap_read_block-Read 16 file)
        (λ bs file1 (same, at, l, room).
          goes_unless (Coded (Filled len file)) _ pcap_fail _ file1 (λ e. same)
            (λ e.
              goes_then (Read _ file1) (Coded (Filled len file)) _ (pcap_read_data _ file1)
                (pcap_read_data-Read _ file1)
                (λ packet file2 (s, at, l, room). (s ∙ same, ground arith, λ h. l))
                (λ file2 rc (s, neg). negative-Filled len file file2 rc (s ∙ same) neg)))
        (λ file1 rc (same, neg). negative-Filled len file file1 rc same neg)

  -- A number of bytes that is returned.
  Counted : Flow PcapFile ℕ → Type 0
  Counted (next file' n) =
      (file'.fp.content ≡ file.fp.content) × (n ≤ len) × (n ≢ 0 → length file'.buf ≡ n)
  Counted (leave file' rc) = ⊥

  count_read-Counted :
      (rc : ℤ) (file' : PcapFile)
      → Filled len file file' rc
      → Finishes Counted (count_read rc file')
  unfolding count_read ◌>>=◌ ◌>>◌ Filled Same Counted Finishes
  count_read-Counted (negsuc n) file' same = (same, omega arith, λ h. absurd (h refl))
  count_read-Counted (pos zero) file' h = h
  count_read-Counted (pos (suc n)) file' h = h

  pcap_read-Counted : Finishes Counted (pcap_read len file)
  unfolding pcap_read ◌>>=◌ Nexts Counted Finishes call
  pcap_read-Counted =
      if_act Counted (file.sys_err || file.have_eof) _ _ file
        (λ e. (refl, omega arith, λ h. absurd (h refl)))
        (λ e.
          goes_then (Nexts (Filled len file)) Counted _ _
            (goes_ended (Filled len file) _ (
              if_act (Coded (Filled len file)) file.is_ng _ _ file (λ e. pcap_read_xpb-Filled)
                (λ e. pcap_read_rec-Filled)))
            (λ rc file' q. count_read-Counted rc file' q) (λ file' rc q. elim q [ ]))

  -- `pcap_read` ends on every file. What it returns is at most the size of the buffer, and when it is
  -- not 0 it is the number of bytes that it puts into the buffer. The bytes of the file stay.
  pub pcap_read-returns :
      (n : ℕ) × (file' : PcapFile) × (pcap_read len file ≡ ok (next file' n))
      × (file'.fp.content ≡ file.fp.content)
      × (n ≤ len)
      × (n ≢ 0 → length file'.buf ≡ n)
  unfolding Finishes Counted
  pcap_read-returns = ended_in (pcap_read len file) pcap_read-Counted
    where
      ended_in :
          (r : Exec (Flow PcapFile ℕ))
          → Finishes Counted r
          → (n : ℕ) × (file' : PcapFile) × (r ≡ ok (next file' n))
            × (file'.fp.content ≡ file.fp.content)
            × (n ≤ len)
            × (n ≢ 0 → length file'.buf ≡ n)
      ended_in (ok (next file' n)) (same, fits, l) = (n, file', refl, same, fits, l)
      ended_in (ok (leave file' rc)) h = elim h [ ]
      ended_in fault h = elim h [ ]
      ended_in stuck h = elim h [ ]
