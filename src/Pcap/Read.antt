-- ===== src/Pcap/Read.antt =====
-- Reading of pcapng blocks, in src/pcap.c: pcap_read_shb, pcap_read_idb, pcap_read_spb, pcap_read_epb,
-- pcap_read_dsb, pcap_skip_block, pcap_peek_block and pcap_read_xpb. A size_t that is returned is not
-- negative; the callers take it as the packet's length.
use c_dns_pkt.Prelude.{
  ℕ, zero, suc, ◌+◌, ◌-◌, ◌*◌, ◌%◌, ◌^◌, Bool, true, not, length, Exec, ok, fault, stuck, ltb, ◌==◌,
  if◌then◌else◌, ℤ, pos, negsuc,
}
use c_dns_pkt.Mem.{Bytes}
use c_dns_pkt.Pcap.{
  ShbHdr, IdbHdr, PcapFile, Act, Flow, next, leave, ◌>>=◌, ◌>>◌, pure, return, state, modify, call,
  leave_if, or_leave, pcap_fail, field16, field32, bswap16, bswap32, bswap64, pcap_shb_type,
  pcap_bom_isng, pcap_bom_isnative, pcap_read_data, pcap_read_block, pcap_data_skip,
  pcap_data_rewind,
}

abbrev pub shb_size : ℕ
shb_size = 24

abbrev pub idb_size : ℕ
idb_size = 16

abbrev pub spb_size : ℕ
spb_size = 12

abbrev pub epb_size : ℕ
epb_size = 28

abbrev pub dsb_size : ℕ
dsb_size = 16

abbrev pub pcap_idb_type : ℕ
pcap_idb_type = 1

abbrev pub pcap_spb_type : ℕ
pcap_spb_type = 3

abbrev pub pcap_epb_type : ℕ
pcap_epb_type = 6

abbrev pub pcap_dsb_type : ℕ
pcap_dsb_type = 10

-- A uint32_t field, swapped when the file has the other byte order.
unfoldable pub swap32 : Bool → ℕ → ℕ
swap32 must_swap v = if must_swap then bswap32 v else v

unfoldable pub swap16 : Bool → ℕ → ℕ
swap16 must_swap v = if must_swap then bswap16 v else v

-- Unsigned subtraction on 32 bits.
unfoldable pub sub32 : ℕ → ℕ → ℕ
sub32 a b = (a + (2 ^ 32 - b % 2 ^ 32)) % 2 ^ 32

-- The 24 bytes of struct pcap_shb_hdr.
unfoldable pub shb_fields : Bytes → ShbHdr
shb_fields bs = record {
  type = field32 bs 0;
  tot_len = field32 bs 4;
  bom = field32 bs 8;
  ver_major = field16 bs 12;
  ver_minor = field16 bs 14;
  sec_len = field32 bs 16 + field32 bs 20 * 2 ^ 32;
}

unfoldable pub swap_shb : ShbHdr → ShbHdr
swap_shb shb = record {
  type = bswap32 shb.type;
  tot_len = bswap32 shb.tot_len;
  bom = bswap32 shb.bom;
  ver_major = bswap16 shb.ver_major;
  ver_minor = bswap16 shb.ver_minor;
  sec_len = bswap64 shb.sec_len;
}

unfoldable pub pcap_read_shb : Act ℤ
pcap_read_shb = do
  bs ← pcap_read_block shb_size
  let shb = shb_fields bs
  modify (λ file. record file { shb = shb; have_shb = true })
  leave_if (not (pcap_bom_isng shb.bom)) pcap_fail
  let must_swap = not (pcap_bom_isnative shb.bom)
  let shb = if must_swap then swap_shb shb else shb
  modify (λ file. record file { must_swap = must_swap; shb = shb })
  leave_if (ltb shb.tot_len shb_size) pcap_fail
  pcap_data_skip (shb.tot_len - shb_size)

unfoldable pub idb_fields : Bool → Bytes → IdbHdr
idb_fields must_swap bs = record {
  type = swap32 must_swap (field32 bs 0);
  tot_len = swap32 must_swap (field32 bs 4);
  link_type = swap16 must_swap (field16 bs 8);
  reserved = swap16 must_swap (field16 bs 10);
  snap_len = swap32 must_swap (field32 bs 12);
}

unfoldable pub pcap_read_idb : Act ℤ
pcap_read_idb = do
  bs ← pcap_read_block idb_size
  file ← state
  let idb = idb_fields file.must_swap bs
  modify (λ file. record file { idb = idb; have_idb = true })
  leave_if (ltb idb.tot_len idb_size) pcap_fail
  pcap_data_skip (idb.tot_len - idb_size)

-- `if (rc) return 0;`
abbrev pub zeroed : {A : Type 0} → Exec (Flow PcapFile A) → Exec (Flow PcapFile A)
zeroed (ok (next file a)) = ok (next file a)
zeroed (ok (leave file rc)) = ok (leave file (pos 0))
zeroed fault = fault
zeroed stuck = stuck

abbrev pub or_zero : {A : Type 0} → Act A → Act A
or_zero m file = zeroed (m file)

-- The packet into the buffer of `buf_len` bytes, and over what is left of the block.
unfoldable pub read_packet : ℕ → ℕ → Act ℤ
read_packet cap_len skip_len = do
  packet ← or_zero (pcap_read_data cap_len)
  modify (λ file. record file { buf = packet })
  pcap_data_skip skip_len
  pure (pos cap_len)

unfoldable pub pcap_read_spb : ℕ → Act ℤ
pcap_read_spb buf_len = do
  file ← state
  leave_if (not file.have_idb) (pos 0)
  bs ← or_zero (pcap_read_block spb_size)
  let tot_len = swap32 file.must_swap (field32 bs 4)
  leave_if (ltb tot_len spb_size) (pos 0)
  let cap_len = sub32 tot_len (spb_size + 4)
  leave_if (ltb buf_len cap_len) (pos 0)
  read_packet cap_len (sub32 tot_len (spb_size + cap_len))

unfoldable pub pcap_read_epb : ℕ → Act ℤ
pcap_read_epb buf_len = do
  file ← state
  leave_if (not file.have_idb) (pos 0)
  bs ← or_zero (pcap_read_block epb_size)
  let tot_len = swap32 file.must_swap (field32 bs 4)
  let incl_len = swap32 file.must_swap (field32 bs 20)
  leave_if (ltb tot_len epb_size) (pos 0)
  leave_if (ltb buf_len incl_len) (pos 0)
  read_packet incl_len (sub32 tot_len (epb_size + incl_len))

unfoldable pub pcap_read_dsb : ℕ → Act ℤ
pcap_read_dsb buf_len = do
  file ← state
  leave_if (not file.have_shb) (pos 0)
  bs ← or_zero (pcap_read_block dsb_size)
  let tot_len = swap32 file.must_swap (field32 bs 4)
  leave_if (ltb tot_len dsb_size) (pos 0)
  let cap_len = sub32 tot_len (dsb_size + 4)
  leave_if (ltb buf_len cap_len) (pos 0)
  read_packet cap_len (sub32 tot_len (dsb_size + cap_len))

unfoldable pub pcap_skip_block : Act ℤ
pcap_skip_block = do
  bs ← pcap_read_block 8
  file ← state
  let tot_len = swap32 file.must_swap (field32 bs 4)
  leave_if (ltb tot_len 8) pcap_fail
  pcap_data_skip (tot_len - 8)

-- A uint32_t as an int.
abbrev pub as_int : ℕ → ℤ
as_int v = if ltb v (2 ^ 31) then pos v else negsuc (2 ^ 32 - 1 - v)

unfoldable pub pcap_peek_block : Act ℤ
pcap_peek_block = do
  bs ← pcap_read_data 4
  rc ← pcap_data_rewind 4
  or_leave rc
  file ← state
  pure (as_int (swap32 file.must_swap (field32 bs 0)))

-- `if (rc) return -1;`, then the next round.
unfoldable pub or_fail : ℤ → Act Unit
or_fail (pos zero) = pure tt
or_fail (pos (suc n)) = return pcap_fail
or_fail (negsuc n) = return pcap_fail

-- The cases of the switch: a block that is passed, or a packet.
unfoldable pub on_block : ℕ → ℕ → Act ℤ → Act ℤ
on_block type len again =
    if type == pcap_shb_type
    then (do rc ← call pcap_read_shb; or_fail rc; again)
    else if type == pcap_idb_type
    then (do rc ← call pcap_read_idb; or_fail rc; again)
    else if type == pcap_spb_type
    then pcap_read_spb len
    else if type == pcap_epb_type
    then pcap_read_epb len
    else if type == pcap_dsb_type
    then pcap_read_dsb len
    else (do rc ← call pcap_skip_block; or_fail rc; again)

-- A negative type ends the loop.
unfoldable pub on_peek : ℤ → ℕ → Act ℤ → Act ℤ
on_peek (pos type) len again = on_block type len again
on_peek (negsuc n) len again = pure (pos 0)

unfoldable pub xpb_loop : ℕ → ℕ → Act ℤ
xpb_loop zero len = λ file. stuck
xpb_loop (suc fuel) len = do
  block_type ← call pcap_peek_block
  on_peek block_type len (xpb_loop fuel len)

-- Each round reads a part of the file, and goes forward.
unfoldable pub pcap_read_xpb : ℕ → Act ℤ
pcap_read_xpb len file = xpb_loop (suc (length file.fp.content)) len file
