-- ===== src/Pcap/Api.antt =====
-- The calls of src/pcap.h: pcap_read and pcap_write on a file that is open, and the parts of pcap_open that follow
-- fopen: pcap_detect_fmt, pcap_setup_fmt and pcap_setup_hdr.
use c_dns_pkt.Prelude.{ℕ, zero, suc, ◌+◌, true, false, ◌||◌, ◌==◌, if◌then◌else◌, ℤ, pos, negsuc}
use c_dns_pkt.Mem.{Bytes}
use c_dns_pkt.Pcap.{
  Act, ◌>>=◌, ◌>>◌, pure, state, modify, call, leave_if, or_leave, pcap_fail, field32, pcap_islg,
  pcap_isng, pcap_read_data,
}
use c_dns_pkt.Pcap.Legacy.{pcap_read_hdr, pcap_read_rec, pcap_write_hdr, pcap_write_rec}
use c_dns_pkt.Pcap.Read.{pcap_read_shb, pcap_read_xpb}
use c_dns_pkt.Pcap.Write.{pcap_write_shb, pcap_write_xpb}

-- PCAP_FMTLG and PCAP_FMTNG
abbrev pub pcap_fmtlg : ℕ
pcap_fmtlg = 8

abbrev pub pcap_fmtng : ℕ
pcap_fmtng = 16

unfoldable pub pcap_detect_fmt : Act ℤ
pcap_detect_fmt = do
  bs ← pcap_read_data 4
  modify (λ file. record file { fp = record (file.fp) { at = 0 } })
  let magic = field32 bs 0
  if pcap_islg magic
      then pure (pos pcap_fmtlg)
      else if pcap_isng magic
      then pure (pos pcap_fmtng)
      else pure pcap_fail

-- The switch on the format.
unfoldable pub set_up_ptrs : ℤ → Act ℤ
set_up_ptrs (negsuc n) = pure pcap_fail
set_up_ptrs (pos fmt) =
    if fmt == pcap_fmtlg
    then (do modify (λ file. record file { is_ng = false }); pure (pos 0))
    else if fmt == pcap_fmtng
    then (do modify (λ file. record file { is_ng = true }); pure (pos 0))
    else pure pcap_fail

unfoldable pub chosen_fmt : ℕ → Act ℤ
chosen_fmt fmt = do
  file ← state
  if fmt == 0
      then (if file.is_reader then call pcap_detect_fmt else pure (pos pcap_fmtlg))
      else pure (pos fmt)

unfoldable pub pcap_setup_fmt : ℕ → Act ℤ
pcap_setup_fmt fmt = do fmt ← chosen_fmt fmt; set_up_ptrs fmt

unfoldable pub pcap_setup_hdr : Act ℤ
pcap_setup_hdr = do
  file ← state
  call (
      if file.is_reader
      then (if file.is_ng then pcap_read_shb else pcap_read_hdr)
      else (if file.is_ng then pcap_write_shb else pcap_write_hdr))

-- The size that is returned, and the count.
unfoldable pub count_read : ℤ → Act ℕ
count_read (negsuc n) = pure 0
count_read (pos zero) = pure 0
count_read (pos (suc n)) = do
  modify (λ file. record file { pkt_cnt = file.pkt_cnt + 1 })
  pure (suc n)

-- `len` is the size of the buffer.
unfoldable pub pcap_read : ℕ → Act ℕ
pcap_read len = do
  file ← state
  if file.sys_err || file.have_eof then pure 0 else (do
    nread ← call (if file.is_ng then pcap_read_xpb len else pcap_read_rec len)
    count_read nread)

-- `usec_ts` is the time that the clock gives when the packet is written.
unfoldable pub pcap_write : ℕ → Bytes → Act ℤ
pcap_write usec_ts packet = do
  file ← state
  leave_if file.sys_err pcap_fail
  rc ← call (if file.is_ng then pcap_write_xpb usec_ts packet else pcap_write_rec usec_ts packet)
  or_leave rc
  modify (λ file. record file { pkt_cnt = file.pkt_cnt + 1 })
  pure (pos 0)
