-- ===== src/Pcap/Legacy.antt =====
-- The classic format of src/pcap.c: pcap_read_hdr, pcap_read_rec, pcap_write_hdr and pcap_write_rec.
use c_dns_pkt.Prelude.{
  ℕ, ◌/◌, ◌%◌, ◌^◌, not, ◌||◌, ◌++◌, length, ltb, if◌then◌else◌, ℤ, pos, negsuc,
}
use c_dns_pkt.Mem.{Bytes}
use c_dns_pkt.Pcap.{
  PcapHdr, Act, ◌>>=◌, ◌>>◌, pure, state, modify, call, leave_if, or_leave, le16, le32, field16,
  field32, bswap16, bswap32, pcap_isnative, pcap_read_data, pcap_read_block, pcap_write_data,
  pcap_write_block,
}

-- The 24 bytes of struct pcap_hdr, both ways.
unfoldable pub hdr_fields : Bytes → PcapHdr
hdr_fields bs = record {
  magic_num = field32 bs 0;
  major_ver = field16 bs 4;
  minor_ver = field16 bs 6;
  rsvd1 = field32 bs 8;
  rsvd2 = field32 bs 12;
  snap_len = field32 bs 16;
  link_type = field32 bs 20;
}

unfoldable pub hdr_memory : PcapHdr → Bytes
hdr_memory hdr =
    le32 hdr.magic_num
    ++ le16 hdr.major_ver
    ++ le16 hdr.minor_ver
    ++ le32 hdr.rsvd1
    ++ le32 hdr.rsvd2
    ++ le32 hdr.snap_len
    ++ le32 hdr.link_type

unfoldable pub swap_hdr : PcapHdr → PcapHdr
swap_hdr hdr = record {
  magic_num = bswap32 hdr.magic_num;
  major_ver = bswap16 hdr.major_ver;
  minor_ver = bswap16 hdr.minor_ver;
  rsvd1 = bswap32 hdr.rsvd1;
  rsvd2 = bswap32 hdr.rsvd2;
  snap_len = bswap32 hdr.snap_len;
  link_type = bswap32 hdr.link_type;
}

unfoldable pub pcap_read_hdr : Act ℤ
pcap_read_hdr = do
  bs ← pcap_read_data 24
  let hdr = hdr_fields bs
  file ← state
  let must_swap = not (pcap_isnative hdr.magic_num) || file.must_swap
  let hdr = if must_swap then swap_hdr hdr else hdr
  modify (λ file. record file { must_swap = must_swap; hdr = hdr })
  pure (pos 0)

-- struct pcap_rec
pub record PcapRec : Type 0 where
  pub ts_sec : ℕ
  pub ts_usec : ℕ
  pub incl_len : ℕ
  pub orig_len : ℕ

unfoldable pub rec_fields : Bytes → PcapRec
rec_fields bs = record {
  ts_sec = field32 bs 0;
  ts_usec = field32 bs 4;
  incl_len = field32 bs 8;
  orig_len = field32 bs 12;
}

unfoldable pub rec_memory : PcapRec → Bytes
rec_memory rec = le32 rec.ts_sec ++ le32 rec.ts_usec ++ le32 rec.incl_len ++ le32 rec.orig_len

unfoldable pub swap_rec : PcapRec → PcapRec
swap_rec rec = record {
  ts_sec = bswap32 rec.ts_sec;
  ts_usec = bswap32 rec.ts_usec;
  incl_len = bswap32 rec.incl_len;
  orig_len = bswap32 rec.orig_len;
}

-- The length of the packet, or a code below 0. `len` is the size of the buffer.
unfoldable pub pcap_read_rec : ℕ → Act ℤ
pcap_read_rec len = do
  bs ← pcap_read_block 16
  file ← state
  let rec = if file.must_swap then swap_rec (rec_fields bs) else rec_fields bs
  leave_if (ltb len rec.incl_len) (negsuc 0)
  packet ← pcap_read_data rec.incl_len
  modify (λ file. record file { buf = packet })
  pure (pos rec.incl_len)

unfoldable pub pcap_write_hdr : Act ℤ
pcap_write_hdr = do
  let hdr : PcapHdr = record {
    magic_num = 0xA1B2C3D4;
    major_ver = 2;
    minor_ver = 4;
    rsvd1 = 0;
    rsvd2 = 0;
    snap_len = 65535;
    link_type = 1;
  }
  modify (λ file. record file { hdr = hdr })
  rc ← pcap_write_data (hdr_memory hdr)
  or_leave rc
  pure (pos 0)

-- `usec_ts` is what `pcap_get_ts` returns, and `packet` the buffer with its length.
unfoldable pub pcap_write_rec : ℕ → Bytes → Act ℤ
pcap_write_rec usec_ts packet = do
  let len = length packet % 2 ^ 32
  rc ← call (
      pcap_write_block (
        rec_memory (record {
          ts_sec = usec_ts / 1000000 % 2 ^ 32;
          ts_usec = usec_ts % 1000000;
          incl_len = len;
          orig_len = len;
        })))
  or_leave rc
  rc ← pcap_write_data packet
  or_leave rc
  pure (pos 0)
