-- ===== src/Dns.antt =====
-- src/dns_proto.h and src/dns_proto.c: the DNS message codec. This file has its constants.
pub mod Name
pub mod Header
pub mod Message
pub mod Encode
pub mod Decode
pub mod Codes
use c_dns_pkt.Prelude.{ℕ}

abbrev pub dns_name_maxlen : ℕ
dns_name_maxlen = 255

abbrev pub dns_name_maxstr : ℕ
dns_name_maxstr = 253

abbrev pub dns_label_maxstr : ℕ
dns_label_maxstr = 63

abbrev pub dns_hdr_len : ℕ
dns_hdr_len = 12

abbrev pub dns_max_pdusize : ℕ
dns_max_pdusize = 2048

abbrev pub dns_max_qd : ℕ
dns_max_qd = 1

abbrev pub dns_max_rr : ℕ
dns_max_rr = 32

abbrev pub dns_max_txt : ℕ
dns_max_txt = 32

abbrev pub dns_comp_ptr : ℕ
dns_comp_ptr = 0xC0

abbrev pub dns_max_jmp : ℕ
dns_max_jmp = 16

abbrev pub dns_max_suffix : ℕ
dns_max_suffix = 32

-- enum dns_dec_error
abbrev pub dns_ehdrlen : ℕ
dns_ehdrlen = 1

abbrev pub dns_ebadjmp : ℕ
dns_ebadjmp = 2

abbrev pub dns_emaxjmp : ℕ
dns_emaxjmp = 3

abbrev pub dns_enamelen : ℕ
dns_enamelen = 4

abbrev pub dns_eoutlen : ℕ
dns_eoutlen = 5

abbrev pub dns_enonull : ℕ
dns_enonull = 6

abbrev pub dns_etrunc : ℕ
dns_etrunc = 7

abbrev pub dns_erdatalen : ℕ
dns_erdatalen = 8

abbrev pub dns_emsgfmt : ℕ
dns_emsgfmt = 9
