-- ===== src/Pcap/Runs/Written.antt =====
-- What pcap_write of src/pcap.c appends to a file when it writes an enhanced packet block.
use c_dns_pkt.Prelude.{
  ℕ, zero, suc, ◌+◌, ◌-◌, ◌%◌, ◌≤◌, ◌<◌, ◌≡◌, refl, ap, ◌∙◌, sym, true, false, length, take, drop,
  Exec, ok, fault, stuck, ◌==◌, ◌^◌, ℤ, pos, arith, [], ◌∷◌, ◌++◌, length-append,
}
use c_dns_pkt.Mem.{Bytes}
use c_dns_pkt.Pcap.{
  PcapFile, Act, Flow, next, leave, and_then, ◌>>=◌, ◌>>◌, call, leave_if, or_leave,
  pcap_write_data, pcap_write_block, calc_padlen, le32,
}
use c_dns_pkt.Pcap.Write.{
  epb_memory, padding_bytes, write_padding, write_packet, or_done, pcap_write_epb, pcap_write_xpb,
  need_idb,
}
use c_dns_pkt.Pcap.Api.{pcap_write}
use c_dns_pkt.Pcap.Runs.{Finishes, goes_then, Coded, Nexts, goes_ended}

take_all : (bs : Bytes) (n : ℕ) → length bs ≤ n → take n bs ≡ bs
take_all [] zero h = refl
take_all [] (suc n) h = refl
take_all (b ∷ bs) zero h = absurd (omega arith)
take_all (b ∷ bs) (suc n) h = ap (◌∷◌ b) (take_all bs n (omega arith))

pub take_front : (bs rest : Bytes) → take (length bs) (bs ++ rest) ≡ bs
take_front [] rest = refl
take_front (b ∷ bs) rest = ap (◌∷◌ b) (take_front bs rest)

pub drop_front : (bs rest : Bytes) → drop (length bs) (bs ++ rest) ≡ rest
drop_front [] rest = refl
drop_front (b ∷ bs) rest = drop_front bs rest

pub append_assoc : (xs ys zs : Bytes) → xs ++ ys ++ zs ≡ xs ++ (ys ++ zs)
append_assoc [] ys zs = refl
append_assoc (x ∷ xs) ys zs = ap (◌∷◌ x) (append_assoc xs ys zs)

append_nil : (xs : Bytes) → xs ++ [] ≡ xs
append_nil [] = refl
append_nil (x ∷ xs) = ap (◌∷◌ x) (append_nil xs)

pub length-padding_bytes : (n : ℕ) → length (padding_bytes n) ≡ n
unfolding padding_bytes
length-padding_bytes zero = refl
length-padding_bytes (suc n) = omega (arith, length-padding_bytes n)

-- The code is 0, and the bytes of the file end in `bs`.
unfoldable pub Appended : Bytes → PcapFile → PcapFile → ℤ → Type 0
Appended bs file file' rc =
    (rc ≡ pos 0) × (file'.fp.content ≡ file.fp.content ++ bs) × (file'.fp.limit ≡ file.fp.limit)

-- There is room for `n` bytes.
unfoldable pub HasRoom : ℕ → PcapFile → Type 0
HasRoom n file = length file.fp.content + n ≤ file.fp.limit

pcap_write_data-Appended :
    (bs : Bytes) (file : PcapFile)
    → HasRoom (length bs) file
    → Finishes (Nexts (Appended bs file)) (pcap_write_data bs file)
unfolding pcap_write_data Finishes Nexts Appended HasRoom
pcap_write_data-Appended bs file fits =
    let whole : (length bs == length bs) ≡ true = ground arith in
    rw (take_all bs (file.fp.limit - length file.fp.content) (omega arith), whole)
      (refl, refl, refl)

write_padding-Appended :
    (n : ℕ) (file : PcapFile)
    → HasRoom n file
    → Finishes (Nexts (Appended (padding_bytes n) file)) (write_padding n file)
unfolding write_padding padding_bytes Finishes Nexts Appended HasRoom
write_padding-Appended zero file fits = (refl, sym (append_nil file.fp.content), refl)
write_padding-Appended (suc n) file fits =
    let some_bytes : (suc n == 0) ≡ false = ground arith in
    rw some_bytes (
      pcap_write_data-Appended (padding_bytes (suc n)) file
        (omega (arith, length-padding_bytes (suc n))))

map_ends :
    (Q R : PcapFile → ℤ → Type 0) (r : Exec (Flow PcapFile ℤ))
    → ((file' : PcapFile) (rc : ℤ) → Q file' rc → R file' rc)
    → Finishes (Coded Q) r
    → Finishes (Coded R) r
unfolding Finishes Coded
map_ends Q R (ok (next file' rc)) h q = h file' rc q
map_ends Q R (ok (leave file' rc)) h q = h file' rc q
map_ends Q R fault h q = q
map_ends Q R stuck h q = q

-- A write that returns 0, and what is written behind it.
put_then :
    (xs ys : Bytes) (file : PcapFile) (f : ℤ → Act ℤ) (r : Exec (Flow PcapFile ℤ))
    → Finishes (Nexts (Appended xs file)) r
    → HasRoom (length (xs ++ ys)) file
    → ((file' : PcapFile)
        → HasRoom (length ys) file'
        → Finishes (Coded (Appended ys file')) (f (pos 0) file'))
    → Finishes (Coded (Appended (xs ++ ys) file)) (and_then f r)
unfolding Nexts Appended HasRoom
put_then xs ys file f r h room on =
    goes_then (Nexts (Appended xs file)) (Coded (Appended (xs ++ ys) file)) f r h
      (λ rc file' (z, content, limit).
        let len : length file'.fp.content ≡ length file.fp.content + length xs =
          rw content (length-append file.fp.content xs) in
        rw z (
          map_ends (Appended ys file') (Appended (xs ++ ys) file) (f (pos 0) file')
            (λ file'' rc (z, content', limit'). (
              z,
              content' ∙ (ap (λ bs. bs ++ ys) content ∙ append_assoc file.fp.content xs ys),
              limit' ∙ limit,
            ))
            (on file' (omega (arith, length-append xs ys)))))
      (λ file' rc q. elim q [ ])

pcap_write_block-Appended :
    (bs : Bytes) (file : PcapFile)
    → HasRoom (length bs) file
    → Finishes (Nexts (Appended bs file)) (call (pcap_write_block bs) file)
unfolding pcap_write_block ◌>>=◌ ◌>>◌ call Nexts Appended Finishes or_leave Coded
pcap_write_block-Appended bs file room = goes_ended (Appended bs file) _ (
    goes_then (Nexts (Appended bs file)) (Coded (Appended bs file)) _ (pcap_write_data bs file)
      (pcap_write_data-Appended bs file room)
      (λ rc file' (z, content, limit). rw z (refl, content, limit)) (λ file' rc q. elim q [ ]))

-- A block of the header, the packet, the padding and the footer.
abbrev pub epb_block : ℕ → Bytes → ℕ → Bytes
epb_block usec_ts packet pad_len =
    let tot_len = 28 + length packet + pad_len + 4 in
    epb_memory usec_ts tot_len (length packet)
    ++ (packet ++ (padding_bytes pad_len ++ le32 tot_len))

write_packet-Appended :
    (packet : Bytes) (pad_len tot_len : ℕ) (file : PcapFile)
    → HasRoom (length (packet ++ (padding_bytes pad_len ++ le32 tot_len))) file
    → Finishes
        (Coded (Appended (packet ++ (padding_bytes pad_len ++ le32 tot_len)) file))
        (write_packet packet pad_len tot_len file)
unfolding write_packet ◌>>=◌ ◌>>◌ or_leave or_done HasRoom Finishes Nexts Coded Appended
write_packet-Appended packet pad_len tot_len file room =
    put_then packet (padding_bytes pad_len ++ le32 tot_len) file _ _
      (pcap_write_data-Appended packet file
        (omega (arith, length-append packet (padding_bytes pad_len ++ le32 tot_len))))
      room
      (λ file' room'.
        put_then (padding_bytes pad_len) (le32 tot_len) file' _ _
          (write_padding-Appended pad_len file' (
            omega (
              arith,
              length-append (padding_bytes pad_len) (le32 tot_len),
              length-padding_bytes pad_len,
            )))
          room'
          (λ file'' room''.
            goes_then (Nexts (Appended (le32 tot_len) file''))
              (Coded (Appended (le32 tot_len) file'')) _ _
              (pcap_write_data-Appended (le32 tot_len) file'' room'')
              (λ rc file3 (z, content, limit). rw z (refl, content, limit))
              (λ file' rc q. elim q [ ])))

pcap_write_epb-Appended :
    (usec_ts : ℕ) (packet : Bytes) (file : PcapFile)
    → length packet < 2 ^ 31
    → HasRoom (length (epb_block usec_ts packet (calc_padlen (length packet)))) file
    → Finishes
        (Coded (Appended (epb_block usec_ts packet (calc_padlen (length packet))) file))
        (pcap_write_epb usec_ts packet file)
unfolding pcap_write_epb ◌>>=◌ ◌>>◌ or_leave HasRoom Finishes Coded Appended calc_padlen
pcap_write_epb-Appended usec_ts packet file short room =
    let pad_len = calc_padlen (length packet) in
    let tot_len = 28 + length packet + pad_len + 4 in
    let same : length packet % 2 ^ 32 ≡ length packet = omega arith in
    let same_tot : tot_len % 2 ^ 32 ≡ tot_len = omega arith in
    let tail = packet ++ (padding_bytes pad_len ++ le32 tot_len) in
    let hdr = epb_memory usec_ts tot_len (length packet) in
    rw (same, same_tot)
      (put_then hdr tail file _ _
        (pcap_write_block-Appended hdr file (omega (arith, length-append hdr tail))) room
        (λ file' room'. write_packet-Appended packet pad_len tot_len file' room'))

either_way :
    (Q : PcapFile → ℤ → Type 0) (r : Exec (Flow PcapFile ℤ))
    → Finishes (Nexts Q) r
    → Finishes (Coded Q) r
unfolding Finishes Coded Nexts
either_way Q (ok (next file' rc)) h = h
either_way Q (ok (leave file' rc)) h = elim h [ ]
either_way Q fault h = h
either_way Q stuck h = h

-- `pcap_write` of an enhanced packet block appends the block to the file.
pub pcap_write-Appended :
    (usec_ts : ℕ) (packet : Bytes) (file : PcapFile)
    → file.sys_err ≡ false
    → file.is_ng ≡ true
    → file.have_idb ≡ true
    → file.use_spb ≡ false
    → length packet < 2 ^ 31
    → HasRoom (length (epb_block usec_ts packet (calc_padlen (length packet)))) file
    → Finishes
        (Coded (Appended (epb_block usec_ts packet (calc_padlen (length packet))) file))
        (pcap_write usec_ts packet file)
unfolding pcap_write pcap_write_xpb need_idb ◌>>=◌ ◌>>◌ or_leave leave_if HasRoom Finishes Nexts
    Coded Appended call
pcap_write-Appended usec_ts packet file fine ng idb epb short room =
    let block = epb_block usec_ts packet (calc_padlen (length packet)) in
    let file0 = record file { sys_err = false; is_ng = true; have_idb = true; use_spb = false } in
    let body = pcap_write_epb usec_ts packet in
    rw (fine, ng, idb, epb)
      (goes_then (Nexts (Appended block file0)) (Coded (Appended block file0)) _ _
        (goes_ended (Appended block file0) _ (
          either_way (Appended block file0) _ (
            goes_ended (Appended block file0) (body file0)
              (pcap_write_epb-Appended usec_ts packet file0 short room))))
        (λ rc file' (z, content, limit). rw z (refl, content, limit)) (λ file' rc q. elim q [ ]))
