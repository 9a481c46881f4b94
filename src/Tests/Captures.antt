-- ===== src/Tests/Captures.antt =====
-- Runs of src/pcap.c on small files.
use c_dns_pkt.Prelude.{
  ℕ, arith, ◌≤◌, ◌≡◌, ◌≢◌, refl, Bool, true, false, [], ◌∷◌, ◌++◌, length, drop, ok, pos,
}
use c_dns_pkt.Mem.{Bytes}
use c_dns_pkt.Pcap.{
  PcapFile, next, ◌>>=◌, ◌>>◌, call, leave_if, or_leave, le32, pcap_read_data, pcap_read_block,
  pcap_write_data, pcap_write_block, field32, calc_padlen, pcap_data_rewind, pcap_data_skip,
}
use c_dns_pkt.Pcap.Read.{
  swap32, sub32, read_packet, pcap_read_spb, pcap_peek_block, on_peek, on_block, xpb_loop,
  pcap_read_xpb,
}
use c_dns_pkt.Pcap.Write.{
  padding_bytes, write_padding, or_done, write_packet, pcap_write_epb, epb_memory, pcap_write_spb,
  need_idb, pcap_write_xpb,
}
use c_dns_pkt.Pcap.Api.{pcap_read, pcap_write, count_read}
use c_dns_pkt.Pcap.Runs.RoundTrip.{pcap_read-pcap_write}
use c_dns_pkt.Pcap.Runs.Bounds.{pcap_read-returns}

-- A capture file of a format, with its bytes and the position.
abbrev capture : Bool → Bool → Bytes → ℕ → ℕ → PcapFile
capture is_ng use_spb content at limit = record {
  fp = record { content = content; at = at; limit = limit };
  hdr = record {
    magic_num = 0;
    major_ver = 0;
    minor_ver = 0;
    rsvd1 = 0;
    rsvd2 = 0;
    snap_len = 0;
    link_type = 0;
  };
  shb = record { type = 0; tot_len = 0; bom = 0; ver_major = 0; ver_minor = 0; sec_len = 0 };
  idb = record { type = 0; tot_len = 0; link_type = 0; reserved = 0; snap_len = 0 };
  epoch_usec = 0;
  is_reader = true;
  is_ng = is_ng;
  must_swap = false;
  have_shb = true;
  have_idb = true;
  use_spb = use_spb;
  sys_err = false;
  have_eof = false;
  pkt_cnt = 0;
  rec_cnt = 0;
  buf = [];
}

-- A record of two bytes.
abbrev two_bytes : PcapFile
two_bytes = capture false false (le32 1 ++ le32 2 ++ le32 2 ++ le32 2 ++ 7 ∷ 9 ∷ []) 0 100

pcap_read-returns_example :
    (n : ℕ) × (file' : PcapFile) × (pcap_read 16 two_bytes ≡ ok (next file' n))
    × (file'.fp.content ≡ two_bytes.fp.content)
    × (n ≤ 16)
    × (n ≢ 0 → length file'.buf ≡ n)
pcap_read-returns_example = pcap_read-returns 16 two_bytes

-- A packet of one byte in a simple packet block is read with its padding: four bytes.
spb_padding :
    (file : PcapFile) × (file' : PcapFile) × (pcap_write 0 (7 ∷ []) (capture true true [] 0 100)
      ≡ ok (next file (pos 0)))
    × (pcap_read 16 (capture true true file.fp.content 0 100) ≡ ok (next file' 4))
    × (file'.buf ≡ 7 ∷ 0 ∷ 0 ∷ 0 ∷ [])
unfolding pcap_write pcap_read ◌>>=◌ ◌>>◌ call leave_if or_leave pcap_read_data pcap_read_block
    pcap_write_data pcap_write_block field32 calc_padlen pcap_data_rewind pcap_data_skip
    pcap_write_xpb pcap_write_spb write_packet write_padding padding_bytes or_done need_idb
    pcap_read_xpb xpb_loop on_peek on_block pcap_peek_block pcap_read_spb read_packet swap32 sub32
    count_read
spb_padding = (_, _, refl, refl, refl)

-- A device that is full behind the header: the write returns 0 and counts the packet.
lost_packet :
    (file : PcapFile) × (pcap_write 5 (7 ∷ 8 ∷ 9 ∷ []) (capture true false [] 0 29)
      ≡ ok (next file (pos 0)))
    × (file.pkt_cnt ≡ 1)
    × (length file.fp.content ≡ 29)
    × (file.sys_err ≡ true)
unfolding pcap_write ◌>>=◌ ◌>>◌ call leave_if or_leave pcap_write_data pcap_write_block calc_padlen
    pcap_write_xpb pcap_write_epb epb_memory write_packet write_padding padding_bytes or_done
    need_idb
lost_packet = (_, refl, refl, refl, refl)

-- An empty file, a packet of one byte, and two bytes that follow.
abbrev empty_file : PcapFile
empty_file = capture true false [] 0 100

pcap_read-pcap_write_example :
    (file' : PcapFile) × (call (pcap_write 5 (7 ∷ [])) empty_file ≡ ok (next file' (pos 0)))
    × (reader' : PcapFile) × (pcap_read 16 (record empty_file {
      fp = record (empty_file.fp) { content = file'.fp.content ++ 1 ∷ 2 ∷ []; at = 0 };
    })
        ≡ ok (next reader' 1))
    × (reader'.buf ≡ 7 ∷ [])
    × (drop reader'.fp.at reader'.fp.content ≡ 1 ∷ 2 ∷ [])
pcap_read-pcap_write_example =
    pcap_read-pcap_write 5 (7 ∷ []) (1 ∷ 2 ∷ []) 16 empty_file empty_file refl refl refl refl
      (omega arith) refl refl refl refl refl (omega arith) (omega arith)
