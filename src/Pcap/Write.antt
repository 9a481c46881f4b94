-- ===== src/Pcap/Write.antt =====
-- Writing of pcapng blocks, in src/pcap.c: pcap_write_shb, pcap_write_idb, pcap_write_spb, pcap_write_epb and
-- pcap_write_xpb.
use c_dns_pkt.Prelude.{
  ℕ, zero, suc, ◌+◌, ◌-◌, ◌/◌, ◌%◌, ◌^◌, true, false, [], ◌∷◌, ◌++◌, length, ◌==◌, if◌then◌else◌, ℤ,
  pos, negsuc,
}
use c_dns_pkt.Mem.{Bytes}
use c_dns_pkt.Pcap.{
  ShbHdr, IdbHdr, Act, ◌>>=◌, ◌>>◌, pure, return, state, modify, call, or_leave, le16, le32, le64,
  pcap_shb_type, pcap_bom_native, calc_padlen, pcap_write_data, pcap_write_block,
}
use c_dns_pkt.Pcap.Read.{
  shb_size, idb_size, spb_size, epb_size, pcap_idb_type, pcap_spb_type, pcap_epb_type,
}

abbrev pub shb_memory : ShbHdr → Bytes
shb_memory shb =
    le32 shb.type
    ++ le32 shb.tot_len
    ++ le32 shb.bom
    ++ le16 shb.ver_major
    ++ le16 shb.ver_minor
    ++ le64 shb.sec_len

unfoldable pub pcap_write_shb : Act ℤ
pcap_write_shb = do
  let shb : ShbHdr = record {
    type = pcap_shb_type;
    tot_len = shb_size + 4;
    ver_major = 1;
    ver_minor = 0;
    bom = pcap_bom_native;
    sec_len = 2 ^ 64 - 1;
  }
  modify (λ file. record file { shb = shb })
  rc ← call (pcap_write_block (shb_memory shb))
  or_leave rc
  rc ← pcap_write_data (le32 shb.tot_len)
  or_leave rc
  modify (λ file. record file { have_shb = true; have_idb = false })
  pure (pos 0)

abbrev pub idb_memory : IdbHdr → Bytes
idb_memory idb =
    le32 idb.type
    ++ le32 idb.tot_len
    ++ le16 idb.link_type
    ++ le16 idb.reserved
    ++ le32 idb.snap_len

unfoldable pub pcap_write_idb : Act ℤ
pcap_write_idb = do
  let idb : IdbHdr = record {
    type = pcap_idb_type;
    tot_len = idb_size + 4;
    link_type = 1;
    reserved = 0;
    snap_len = 65535;
  }
  modify (λ file. record file { idb = idb })
  rc ← call (pcap_write_block (idb_memory idb))
  or_leave rc
  rc ← pcap_write_data (le32 idb.tot_len)
  or_leave rc
  modify (λ file. record file { have_idb = true })
  pure (pos 0)

-- `if (rc) return 0;`
unfoldable pub or_done : ℤ → Act Unit
or_done (pos zero) = pure tt
or_done (pos (suc n)) = return (pos 0)
or_done (negsuc n) = return (pos 0)

-- `if (pad_len)`: so many zero bytes of `padding`.
unfoldable pub padding_bytes : ℕ → Bytes
padding_bytes zero = []
padding_bytes (suc n) = 0 ∷ padding_bytes n

unfoldable pub write_padding : ℕ → Act ℤ
write_padding pad_len =
    if pad_len == 0 then pure (pos 0) else pcap_write_data (padding_bytes pad_len)

-- The packet with its padding, and the footer.
unfoldable pub write_packet : Bytes → ℕ → ℕ → Act ℤ
write_packet packet pad_len tot_len = do
  rc ← pcap_write_data packet
  or_done rc
  rc ← write_padding pad_len
  or_leave rc
  rc ← pcap_write_data (le32 tot_len)
  or_leave rc
  pure (pos 0)

-- `packet` is the buffer with its length.
unfoldable pub pcap_write_spb : Bytes → Act ℤ
pcap_write_spb packet = do
  let pad_len = calc_padlen (length packet % 2 ^ 32)
  let tot_len = (spb_size + length packet + pad_len + 4) % 2 ^ 32
  rc ← call (pcap_write_block (le32 pcap_spb_type ++ le32 tot_len ++ le32 (length packet % 2 ^ 32)))
  or_leave rc
  write_packet packet pad_len tot_len

-- `usec_ts` is what `pcap_get_ts` returns.
unfoldable pub epb_memory : ℕ → ℕ → ℕ → Bytes
epb_memory usec_ts tot_len buf_len =
    le32 pcap_epb_type
    ++ le32 tot_len
    ++ le32 0
    ++ le32 (usec_ts / 2 ^ 32)
    ++ le32 (usec_ts % 2 ^ 32)
    ++ le32 (buf_len % 2 ^ 32)
    ++ le32 (buf_len % 2 ^ 32)

unfoldable pub pcap_write_epb : ℕ → Bytes → Act ℤ
pcap_write_epb usec_ts packet = do
  let pad_len = calc_padlen (length packet % 2 ^ 32)
  let tot_len = (epb_size + length packet + pad_len + 4) % 2 ^ 32
  rc ← call (pcap_write_block (epb_memory usec_ts tot_len (length packet)))
  or_leave rc
  write_packet packet pad_len tot_len

unfoldable pub need_idb : Act ℤ
need_idb = do file ← state; if file.have_idb then pure (pos 0) else call pcap_write_idb

unfoldable pub pcap_write_xpb : ℕ → Bytes → Act ℤ
pcap_write_xpb usec_ts packet = do
  rc ← need_idb
  or_leave rc
  file ← state
  call (if file.use_spb then pcap_write_spb packet else pcap_write_epb usec_ts packet)
