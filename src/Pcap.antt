-- ===== src/Pcap.antt =====
-- Packet capture files of src/pcap.c and src/pcap.h: the state, the file below it, and the calls that
-- read, write and seek. The host is little-endian. Trace output, log lines and errno are left out.
pub mod Legacy
pub mod Read
pub mod Write
pub mod Api
pub mod Runs
pub use c_dns_pkt.Flow.{Flow, next, leave, and_then, ended}
use c_dns_pkt.Prelude.{
  ℕ, zero, suc, ◌+◌, ◌-◌, ◌*◌, ◌/◌, ◌%◌, ◌^◌, Bool, true, false, [], ◌∷◌, ◌++◌, length, take, drop,
  Exec, ok, fault, stuck, ltb, leb, ◌==◌, ◌||◌, if◌then◌else◌, ℤ, pos, negsuc,
}
use c_dns_pkt.Mem.{Bytes}

-- A FILE: the bytes of the file, the position, and how many bytes the device takes.
pub record Stream : Type 0 where
  pub content : Bytes
  pub at : ℕ
  pub limit : ℕ

-- struct pcap_hdr
pub record PcapHdr : Type 0 where
  pub magic_num : ℕ
  pub major_ver : ℕ
  pub minor_ver : ℕ
  pub rsvd1 : ℕ
  pub rsvd2 : ℕ
  pub snap_len : ℕ
  pub link_type : ℕ

-- struct pcap_shb_hdr
pub record ShbHdr : Type 0 where
  pub type : ℕ
  pub tot_len : ℕ
  pub bom : ℕ
  pub ver_major : ℕ
  pub ver_minor : ℕ
  pub sec_len : ℕ

-- struct pcap_idb_hdr
pub record IdbHdr : Type 0 where
  pub type : ℕ
  pub tot_len : ℕ
  pub link_type : ℕ
  pub reserved : ℕ
  pub snap_len : ℕ

-- struct pcap_file. `hdr` and `shb` share their memory in C, and a file uses the one of its format. `is_ng` stands for the function pointers, which go with it; `buf` is what the
-- buffer of the caller of a read begins with.
pub record PcapFile : Type 0 where
  pub fp : Stream
  pub hdr : PcapHdr
  pub shb : ShbHdr
  pub idb : IdbHdr
  pub epoch_usec : ℕ
  pub is_reader : Bool
  pub is_ng : Bool
  pub must_swap : Bool
  pub have_shb : Bool
  pub have_idb : Bool
  pub use_spb : Bool
  pub sys_err : Bool
  pub have_eof : Bool
  pub pkt_cnt : ℕ
  pub rec_cnt : ℕ
  pub buf : Bytes

abbrev pub Act : Type 0 → Type 0
Act A = PcapFile → Exec (Flow PcapFile A)

infixl 5 ◌>>=◌ ◌>>◌
unfoldable pub ◌>>=◌ : {A B : Type 0} → Act A → (A → Act B) → Act B
◌>>=◌ m f file = and_then (λ a file'. f a file') (m file)

unfoldable pub ◌>>◌ : {A B : Type 0} → Act A → Act B → Act B
◌>>◌ m k file = and_then (λ a file'. k file') (m file)

abbrev pub pure : {A : Type 0} → A → Act A
pure a file = ok (next file a)

abbrev pub return : {A : Type 0} → ℤ → Act A
return rc file = ok (leave file rc)

abbrev pub state : Act PcapFile
state file = ok (next file file)

abbrev pub modify : (PcapFile → PcapFile) → Act Unit
modify f file = ok (next (f file) tt)

-- A call, for its code.
unfoldable pub call : Act ℤ → Act ℤ
call body file = ended (body file)

-- `if (b) return rc;`
unfoldable pub leave_if : Bool → ℤ → Act Unit
leave_if b rc = if b then return rc else pure tt

-- PCAP_FAIL and PCAP_EOF
abbrev pub pcap_fail : ℤ
pcap_fail = negsuc 0

abbrev pub pcap_eof : ℤ
pcap_eof = negsuc 1

-- Little-endian numbers of 2, 4 and 8 bytes.
abbrev pub le16 : ℕ → Bytes
le16 v = (v % 256) ∷ (v / 256 % 256) ∷ []

abbrev pub le32 : ℕ → Bytes
le32 v = (v % 256) ∷ (v / 256 % 256) ∷ (v / 65536 % 256) ∷ (v / 16777216 % 256) ∷ []

abbrev pub le64 : ℕ → Bytes
le64 v = le32 (v % 2 ^ 32) ++ le32 (v / 2 ^ 32)

abbrev pub byte_or_zero : Bytes → ℕ → ℕ
byte_or_zero [] i = 0
byte_or_zero (b ∷ bs) zero = b
byte_or_zero (b ∷ bs) (suc i) = byte_or_zero bs i

-- The field of a struct whose bytes are `bs`, at an offset.
unfoldable pub field16 : Bytes → ℕ → ℕ
field16 bs i = byte_or_zero bs i + byte_or_zero bs (i + 1) * 256

unfoldable pub field32 : Bytes → ℕ → ℕ
field32 bs i =
    byte_or_zero bs i
    + byte_or_zero bs (i + 1) * 256
    + byte_or_zero bs (i + 2) * 65536
    + byte_or_zero bs (i + 3) * 16777216

-- __builtin_bswap16, __builtin_bswap32 and __builtin_bswap64
unfoldable pub bswap16 : ℕ → ℕ
bswap16 v = v % 256 * 256 + v / 256

unfoldable pub bswap32 : ℕ → ℕ
bswap32 v = bswap16 (v % 65536) * 65536 + bswap16 (v / 65536)

unfoldable pub bswap64 : ℕ → ℕ
bswap64 v = bswap32 (v % 2 ^ 32) * 2 ^ 32 + bswap32 (v / 2 ^ 32)

-- The magic numbers, and the tests of them.
unfoldable pub pcap_islg : ℕ → Bool
pcap_islg magic =
    (magic == 0xA1B2C3D4) || (magic == 0xA1B23C4D) || (magic == 0xD4C3B2A1) || (magic == 0x4D3C2B1A)

abbrev pub pcap_shb_type : ℕ
pcap_shb_type = 0x0A0D0D0A

unfoldable pub pcap_isng : ℕ → Bool
pcap_isng magic = magic == pcap_shb_type

unfoldable pub pcap_isnative : ℕ → Bool
pcap_isnative magic = (magic == 0xA1B2C3D4) || (magic == 0xA1B23C4D)

abbrev pub pcap_bom_native : ℕ
pcap_bom_native = 0x1A2B3C4D

unfoldable pub pcap_bom_isng : ℕ → Bool
pcap_bom_isng magic = (magic == pcap_bom_native) || (magic == 0x4D3C2B1A)

unfoldable pub pcap_bom_isnative : ℕ → Bool
pcap_bom_isnative magic = magic == pcap_bom_native

-- The bytes behind the length up to a multiple of 4.
unfoldable pub calc_padlen : ℕ → ℕ
calc_padlen cap_len = (4 - cap_len % 4) % 4

-- fread of `len` bytes: those that are there, and the file behind them.
abbrev pub fread : ℕ → PcapFile → PcapFile × Bytes
fread len file =
    let got = take len (drop file.fp.at file.fp.content) in
    (record file { fp = record (file.fp) { at = file.fp.at + length got } }, got)

-- The bytes that are read, or the code returned. A read error of the device does not occur. What a
-- short read leaves in the memory is not used.
unfoldable pub pcap_read_data : ℕ → Act Bytes
pcap_read_data len file =
    let (file, got) = fread len file in
    if length got == len
    then ok (next file got)
    else if length got == 0
    then ok (leave (record file { have_eof = true }) pcap_eof)
    else ok (leave file pcap_fail)

abbrev count_block : PcapFile → PcapFile
count_block file = record file { rec_cnt = file.rec_cnt + 1 }

unfoldable pub pcap_read_block : ℕ → Act Bytes
pcap_read_block len = do block ← pcap_read_data len; modify count_block; pure block

-- fwrite at the end of the file, for as many bytes as the device takes.
abbrev pub fwrite : Bytes → PcapFile → PcapFile × ℕ
fwrite data_ file =
    let put = take (file.fp.limit - length file.fp.content) data_ in
    (
      record file {
        fp = record (file.fp) {
          content = file.fp.content ++ put;
          at = length file.fp.content + length put;
        };
      },
      length put,
    )

-- The code: 0, or -1 after an error of the device, which is kept in `sys_err`.
unfoldable pub pcap_write_data : Bytes → Act ℤ
pcap_write_data data_ file =
    let (file, nwrite) = fwrite data_ file in
    if nwrite == length data_
    then ok (next file (pos 0))
    else ok (next (record file { sys_err = true }) pcap_fail)

-- `if (rc) return rc;`
unfoldable pub or_leave : ℤ → Act Unit
or_leave (pos zero) = pure tt
or_leave (pos (suc n)) = return (pos (suc n))
or_leave (negsuc n) = return (negsuc n)

unfoldable pub pcap_write_block : Bytes → Act ℤ
pcap_write_block block = do
  rc ← pcap_write_data block
  or_leave rc
  modify count_block
  pure (pos 0)

-- fseek of a file from the position on, by `len` bytes.
unfoldable pub pcap_data_skip : ℕ → Act ℤ
pcap_data_skip len = do
  modify (λ file. record file { fp = record (file.fp) { at = file.fp.at + len } })
  pure (pos 0)

-- A position in front of the file is an error.
unfoldable pub pcap_data_rewind : ℕ → Act ℤ
pcap_data_rewind len file =
    if ltb file.fp.at len
    then ok (next (record file { sys_err = true }) pcap_fail)
    else ok (next (record file { fp = record (file.fp) { at = file.fp.at - len } }) (pos 0))
