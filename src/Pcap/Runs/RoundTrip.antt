-- ===== src/Pcap/Runs/RoundTrip.antt =====
-- A packet that pcap_write puts into a file, and pcap_read of the file at that place.
use c_dns_pkt.Prelude.{
  ℕ, zero, suc, ◌+◌, ◌-◌, ◌≤◌, ◌<◌, ◌≡◌, refl, ap, ◌∙◌, sym, Bool, true, false, length, take, drop,
  Exec, ok, fault, stuck, ltb, ◌==◌, ◌^◌, ℤ, pos, arith, ◌++◌, length-append,
}
use c_dns_pkt.Mem.{Bytes}
use c_dns_pkt.Pcap.{
  PcapFile, Act, Flow, next, leave, and_then, ◌>>=◌, ◌>>◌, call, leave_if, or_leave, pcap_read_data,
  pcap_read_block, pcap_data_skip, pcap_data_rewind, field32, calc_padlen, le32,
}
use c_dns_pkt.Pcap.Read.{
  as_int, zeroed, read_packet, pcap_read_epb, pcap_peek_block, xpb_loop, on_peek, on_block,
  pcap_read_xpb, swap32, sub32,
}
use c_dns_pkt.Pcap.Write.{epb_memory, padding_bytes}
use c_dns_pkt.Pcap.Api.{pcap_read, pcap_write, count_read}
use c_dns_pkt.Pcap.Runs.{Finishes, goes_then, Coded, Nexts, goes_ended}
use c_dns_pkt.Pcap.Runs.Written.{
  take_front, drop_front, append_assoc, length-padding_bytes, pcap_write-Appended, Appended,
  HasRoom, epb_block,
}

-- The bytes `part` are read, and the position is behind them.
Fetched : Bytes → PcapFile → Flow PcapFile Bytes → Type 0
Fetched part file (next file' bs) =
    (bs ≡ part)
    × (file'.fp.content ≡ file.fp.content)
    × (file'.fp.at ≡ file.fp.at + length part)
    × (file'.must_swap ≡ file.must_swap)
    × (file'.have_idb ≡ file.have_idb)
Fetched part file (leave file' rc) = ⊥

-- The bytes of the file from its position on.
Holds : Bytes → PcapFile → Type 0
Holds bs file = (front : Bytes) × (file.fp.content ≡ front ++ bs) × (file.fp.at ≡ length front)

pcap_read_data-Fetched :
    (n : ℕ) (part rest : Bytes) (file : PcapFile)
    → n ≡ length part
    → Holds (part ++ rest) file
    → Finishes (Fetched part file) (pcap_read_data n file)
unfolding pcap_read_data Finishes Fetched Holds
pcap_read_data-Fetched n part rest file len (front, content, at) =
    let whole : (length part == length part) ≡ true = ground arith in
    let got : take n (drop file.fp.at file.fp.content) ≡ part =
      rw (content, at, len, drop_front front (part ++ rest)) (take_front part rest) in
    rw (got, len, whole) (refl, refl, refl, refl, refl)

got_Holds :
    (part rest : Bytes) (file file' : PcapFile)
    → Holds (part ++ rest) file
    → file'.fp.content ≡ file.fp.content
    → file'.fp.at ≡ file.fp.at + length part
    → Holds rest file'
unfolding Holds
got_Holds part rest file file' (front, content, at) same at' = (
  front ++ part,
  same ∙ (content ∙ sym (append_assoc front part rest)),
  omega (arith, length-append front part),
)

unless_false :
    {A : Type 0} (Q : Flow PcapFile A → Type 0) (b : Bool) (rc : ℤ) (f : Unit → Act A)
    (file : PcapFile)
    → b ≡ false
    → Finishes Q (f tt file)
    → Finishes Q (and_then f (leave_if b rc file))
unfolding leave_if
unless_false Q b rc f file e h = rw e h

got_then :
    {B : Type 0} (Q : Flow PcapFile B → Type 0) (part rest : Bytes) (file : PcapFile)
    (f : Bytes → Act B) (r : Exec (Flow PcapFile Bytes))
    → Finishes (Fetched part file) r
    → Holds (part ++ rest) file
    → ((file' : PcapFile)
        → Holds rest file'
        → file'.fp.at ≡ file.fp.at + length part
        → file'.must_swap ≡ file.must_swap
        → file'.have_idb ≡ file.have_idb
        → file'.fp.content ≡ file.fp.content
        → Finishes Q (f part file'))
    → Finishes Q (and_then f r)
unfolding Fetched
got_then Q part rest file f r got holds on =
    goes_then (Fetched part file) Q f r got
      (λ bs file' (e, same, at, swap, idb).
        rw e (on file' (got_Holds part rest file file' holds same at) at swap idb same))
      (λ file' rc q. elim q [ ])

zeroed-Fetched :
    (part : Bytes) (file : PcapFile) (r : Exec (Flow PcapFile Bytes))
    → Finishes (Fetched part file) r
    → Finishes (Fetched part file) (zeroed r)
unfolding Finishes Fetched
zeroed-Fetched part file (ok (next file' bs)) q = q
zeroed-Fetched part file (ok (leave file' rc)) q = elim q [ ]
zeroed-Fetched part file fault q = q
zeroed-Fetched part file stuck q = q

pcap_read_block-Fetched :
    (n : ℕ) (part rest : Bytes) (file : PcapFile)
    → n ≡ length part
    → Holds (part ++ rest) file
    → Finishes (Fetched part file) (pcap_read_block n file)
unfolding pcap_read_block ◌>>=◌ ◌>>◌ Fetched Finishes
pcap_read_block-Fetched n part rest file len holds =
    got_then (Fetched part file) part rest file _ _
      (pcap_read_data-Fetched n part rest file len holds) holds
      (λ file' h at swap idb same. (refl, same, at, swap, idb))

-- The fields of the header.
epb_length :
    (usec_ts tot_len buf_len : ℕ)
    → tot_len < 2 ^ 32
    → field32 (epb_memory usec_ts tot_len buf_len) 4 ≡ tot_len
unfolding field32 epb_memory
epb_length usec_ts tot_len buf_len h = omega arith

length-epb_memory : (usec_ts tot_len buf_len : ℕ) → 28 ≡ length (epb_memory usec_ts tot_len buf_len)
unfolding epb_memory
length-epb_memory usec_ts tot_len buf_len = refl

epb_incl :
    (usec_ts tot_len buf_len : ℕ)
    → buf_len < 2 ^ 32
    → field32 (epb_memory usec_ts tot_len buf_len) 20 ≡ buf_len
unfolding field32 epb_memory
epb_incl usec_ts tot_len buf_len h = omega arith

-- The packet is in the buffer, its length is returned, and `rest` is what follows in the file.
Loaded : Bytes → Bytes → PcapFile → ℤ → Type 0
Loaded packet rest file' rc = (rc ≡ pos (length packet)) × (file'.buf ≡ packet) × Holds rest file'

module _ (packet more rest : Bytes) where
  read_packet-Loaded :
      (cap_len skip_len : ℕ) (file : PcapFile)
      → cap_len ≡ length packet
      → skip_len ≡ length more
      → Holds (packet ++ (more ++ rest)) file
      → Finishes (Coded (Loaded packet rest)) (read_packet cap_len skip_len file)
  unfolding read_packet ◌>>=◌ ◌>>◌ pcap_data_skip Finishes Coded Loaded
  read_packet-Loaded cap_len skip_len file len skip holds =
      got_then (Coded (Loaded packet rest)) packet (more ++ rest) file _ _
        (zeroed-Fetched packet file _
          (pcap_read_data-Fetched cap_len packet (more ++ rest) file len holds))
        holds
        (λ file' h at swap idb same. (
          ap pos len,
          refl,
          got_Holds more rest file'
              (record file' {
                buf = packet;
                fp = record (file'.fp) { at = file'.fp.at + skip_len };
              })
              h refl (ap (λ n. file'.fp.at + n) skip),
        ))

module _ (usec_ts : ℕ) (packet rest : Bytes) where
  abbrev pad_len : ℕ
  pad_len = calc_padlen (length packet)

  abbrev tot_len : ℕ
  tot_len = 28 + length packet + pad_len + 4

  abbrev more : Bytes
  more = padding_bytes pad_len ++ le32 tot_len

  pcap_read_epb-Loaded :
      (len : ℕ) (file : PcapFile)
      → file.have_idb ≡ true
      → file.must_swap ≡ false
      → length packet < 2 ^ 31
      → length packet ≤ len
      → Holds (epb_memory usec_ts tot_len (length packet) ++ (packet ++ (more ++ rest))) file
      → Finishes (Coded (Loaded packet rest)) (pcap_read_epb len file)
  unfolding pcap_read_epb ◌>>=◌ ◌>>◌ swap32 calc_padlen sub32
  pcap_read_epb-Loaded len file idb native short fits holds =
      let Q = Coded (Loaded packet rest) in
      let hdr = epb_memory usec_ts tot_len (length packet) in
      let behind = packet ++ (more ++ rest) in
      let len_more : length more ≡ pad_len + 4 = omega (
        arith,
        length-append (padding_bytes pad_len) (le32 tot_len),
        length-padding_bytes pad_len,
      ) in
      unless_false Q _ _ _ file (rw idb refl) (
        got_then Q hdr behind file _ _
          (zeroed-Fetched hdr file _ (
            pcap_read_block-Fetched 28 hdr behind file
              (length-epb_memory usec_ts tot_len (length packet)) holds))
          holds
          (λ file' h at swap same_idb same.
            let no_swap : file.must_swap ≡ false = native in
            rw
              (
                no_swap,
                epb_length usec_ts tot_len (length packet) (omega arith),
                epb_incl usec_ts tot_len (length packet) (omega arith),
              )
              (unless_false Q _ _ _ file' (ground arith) (
                unless_false Q _ _ _ file' (ground arith)
                  (read_packet-Loaded packet more rest _ _ file' refl (omega arith) h)))))

-- The type of an enhanced packet block is 6, and the file stays at the block.
Peeked6 : Bytes → PcapFile → PcapFile → ℤ → Type 0
Peeked6 bs file file' rc =
    (rc ≡ pos 6)
    × Holds bs file'
    × (file'.have_idb ≡ file.have_idb)
    × (file'.must_swap ≡ file.must_swap)

pcap_peek_block-Peeked6 :
    (bs : Bytes) (file : PcapFile)
    → file.must_swap ≡ false
    → Holds (le32 6 ++ bs) file
    → Finishes (Nexts (Peeked6 (le32 6 ++ bs) file)) (call pcap_peek_block file)
unfolding pcap_peek_block ◌>>=◌ ◌>>◌ call Nexts Coded Finishes Peeked6 Holds pcap_data_rewind
    or_leave swap32 field32
pcap_peek_block-Peeked6 bs file native holds =
    let all = le32 6 ++ bs in
    goes_ended (Peeked6 all file) _ (
      got_then (Coded (Peeked6 all file)) (le32 6) bs file _ _
        (pcap_read_data-Fetched 4 (le32 6) bs file refl holds) holds
        (λ file' h at swap idb same.
          let back : ltb file'.fp.at 4 ≡ false = ground arith in
          let no_swap : file'.must_swap ≡ false = swap ∙ native in
          let there : file'.fp.at - 4 ≡ file.fp.at = omega arith in
          rw back (
            (
              ap (λ b. as_int (swap32 b 6)) no_swap,
              (holds.0, same ∙ holds.1, there ∙ holds.2),
              idb,
              swap,
            ))))

-- What `pcap_read` returns is the length of the packet.
ReadBack : Bytes → Bytes → Flow PcapFile ℕ → Type 0
ReadBack packet rest (next file' n) = (n ≡ length packet) × (file'.buf ≡ packet) × Holds rest file'
ReadBack packet rest (leave file' rc) = ⊥

module _ (usec_ts : ℕ) (packet rest : Bytes) where
  abbrev block : Bytes
  block = epb_block usec_ts packet (calc_padlen (length packet))

  abbrev tail : Bytes
  tail = packet ++ (more usec_ts packet rest ++ rest)

  -- The block with what follows, as it is read.
  block_parts :
      block ++ rest ≡ epb_memory usec_ts (tot_len usec_ts packet rest) (length packet) ++ tail
  block_parts =
      append_assoc (epb_memory usec_ts (tot_len usec_ts packet rest) (length packet))
        (packet ++ more usec_ts packet rest) rest
      ∙ ap (◌++◌ (epb_memory usec_ts (tot_len usec_ts packet rest) (length packet)))
          (append_assoc packet (more usec_ts packet rest) rest)

  length-block : length block ≡ 28 + (length packet + (calc_padlen (length packet) + 4))
  length-block =
      let rear = more usec_ts packet rest in
      let hdr = epb_memory usec_ts (tot_len usec_ts packet rest) (length packet) in
      omega (
        arith,
        length-append hdr (packet ++ rear),
        length-epb_memory usec_ts (tot_len usec_ts packet rest) (length packet),
        length-append packet rear,
        length-append (padding_bytes (calc_padlen (length packet)))
            (le32 (tot_len usec_ts packet rest)),
        length-padding_bytes (calc_padlen (length packet)),
      )

  count_read-ReadBack :
      (n : ℕ) (file : PcapFile)
      → Loaded packet rest file (pos n)
      → Finishes (ReadBack packet rest) (count_read (pos n) file)
  unfolding Loaded ReadBack count_read ◌>>=◌ ◌>>◌ Finishes Holds
  count_read-ReadBack zero file (e, buf, h) = (cc, buf, h)
  count_read-ReadBack (suc n) file (e, buf, h) = (cc, buf, h)

  pcap_read_xpb-Loaded :
      (len : ℕ) (file : PcapFile)
      → file.have_idb ≡ true
      → file.must_swap ≡ false
      → length packet < 2 ^ 31
      → length packet ≤ len
      → Holds (block ++ rest) file
      → Finishes (Coded (Loaded packet rest)) (pcap_read_xpb len file)
  unfolding pcap_read_xpb xpb_loop on_peek on_block ◌>>=◌ Nexts Peeked6 epb_memory
  pcap_read_xpb-Loaded len file idb native short fits holds =
      let bytes = epb_memory usec_ts (tot_len usec_ts packet rest) (length packet) ++ tail in
      let here : Holds bytes file = rw (sym block_parts) holds in
      goes_then (Nexts (Peeked6 bytes file)) (Coded (Loaded packet rest)) _
        (call pcap_peek_block file) (pcap_peek_block-Peeked6 (drop 4 bytes) file native here)
        (λ rc file' (six, h, same_idb, swap). rw six (
          pcap_read_epb-Loaded usec_ts packet rest len file' (same_idb ∙ idb) (swap ∙ native) short
            fits h))
        (λ file' rc q. elim q [ ])

  pcap_read-ReadBack :
      (len : ℕ) (file : PcapFile)
      → file.sys_err ≡ false
      → file.have_eof ≡ false
      → file.is_ng ≡ true
      → file.have_idb ≡ true
      → file.must_swap ≡ false
      → length packet < 2 ^ 31
      → length packet ≤ len
      → Holds (block ++ rest) file
      → Finishes (ReadBack packet rest) (pcap_read len file)
  unfolding pcap_read ◌>>=◌ Nexts call Loaded ReadBack Holds
  pcap_read-ReadBack len file fine more_left ng idb native short fits holds =
      let Q = Loaded packet rest in
      rw (fine, more_left, ng)
        (goes_then (Nexts Q) (ReadBack packet rest) _ _
          (goes_ended Q _ (
            pcap_read_xpb-Loaded len
              (record file { sys_err = false; have_eof = false; is_ng = true }) idb native short
              fits holds))
          (λ rc file' (e, buf, h). rw e (count_read-ReadBack (length packet) file' (refl, buf, h)))
          (λ file' rc q. elim q [ ]))

finished :
    {A : Type 0} (Q : Flow PcapFile A → Type 0) (r : Exec (Flow PcapFile A))
    → Finishes Q r
    → ((file' : PcapFile) (rc : ℤ) → ¬ (Q (leave file' rc)))
    → (a : A) × (file' : PcapFile) × (r ≡ ok (next file' a)) × Q (next file' a)
unfolding Finishes
finished Q (ok (next file' a)) q on = (a, file', refl, q)
finished Q (ok (leave file' rc)) q on = absurd (on file' rc q)
finished Q fault q on = elim q [ ]
finished Q stuck q on = elim q [ ]

-- A packet that `pcap_write` puts into a pcapng file as an enhanced packet block is read by `pcap_read`
-- at that place, whatever follows in the file: the write returns 0, the read returns the length of
-- the packet with the packet in the buffer, and the file stands at what follows. The device has
-- room for the block, the buffer for the packet, and both files are native, open without an
-- error and behind the description of the interface.
pub pcap_read-pcap_write :
    (usec_ts : ℕ) (packet rest : Bytes) (len : ℕ) (file reader : PcapFile)
    → file.sys_err ≡ false
    → file.is_ng ≡ true
    → file.have_idb ≡ true
    → file.use_spb ≡ false
    → length file.fp.content + length packet + 35 ≤ file.fp.limit
    → reader.sys_err ≡ false
    → reader.have_eof ≡ false
    → reader.is_ng ≡ true
    → reader.have_idb ≡ true
    → reader.must_swap ≡ false
    → length packet < 2 ^ 31
    → length packet ≤ len
    → (file' : PcapFile) × (call (pcap_write usec_ts packet) file ≡ ok (next file' (pos 0)))
      × (reader' : PcapFile) × (pcap_read len (record reader {
        fp = record (reader.fp) { content = file'.fp.content ++ rest; at = length file.fp.content };
      })
          ≡ ok (next reader' (length packet)))
      × (reader'.buf ≡ packet)
      × (drop reader'.fp.at reader'.fp.content ≡ rest)
unfolding Nexts Appended HasRoom Holds ReadBack calc_padlen call
pcap_read-pcap_write usec_ts packet rest len file reader fine ng idb epb room fine' eof' ng' idb'
      native' short fits =
    let whole = block usec_ts packet rest in
    let room' : HasRoom (length whole) file = omega (arith, length-block usec_ts packet rest) in
    let (rc, file', run, (z, content, limit)) =
      finished (Nexts (Appended whole file)) _
        (goes_ended (Appended whole file) _
          (pcap_write-Appended usec_ts packet file fine ng idb epb short room'))
        (λ file' rc q. q) in
    let reading = record reader {
      fp = record (reader.fp) { content = file'.fp.content ++ rest; at = length file.fp.content };
    } in
    let (n, reader', run', (e, buf, (front, content', at'))) =
      finished (ReadBack packet rest) _
        (pcap_read-ReadBack usec_ts packet rest len reading fine' eof' ng' idb' native' short fits (
          file.fp.content,
          ap (λ bs. bs ++ rest) content ∙ append_assoc file.fp.content whole rest,
          refl,
        ))
        (λ file' rc q. q) in
    (
      file',
      run ∙ ap (λ n. ok (next file' n)) z,
      reader',
      run' ∙ ap (λ n. ok (next reader' n)) e,
      buf,
      ap (λ n. drop n reader'.fp.content) at'
          ∙ (ap (λ bs. drop (length front) bs) content' ∙ drop_front front rest),
    )
