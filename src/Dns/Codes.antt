-- ===== src/Dns/Codes.antt =====
-- The names of types, classes and flags: dns_type_tostr, dns_class_tostr, dns_get_type, dns_get_class
-- and dns_get_flag of src/dns_proto.c. A chain of tests that return is a table that is searched in
-- order.
pub mod RoundTrip
use c_dns_pkt.Prelude.{ℕ, List, [], ◌∷◌, Option, none, some, ◌==◌, if◌then◌else◌}
use c_dns_pkt.Mem.{Bytes, codes}
use c_dns_pkt.Dns.Name.Encode.{same_text}

-- A chain of `if (code == k) return "...";`. `none` is the number as text, `int_tostr(code)`.
unfoldable pub find_code : List (ℕ × Bytes) → ℕ → Option Bytes
find_code [] code = none
find_code ((k, name) ∷ rest) code = if code == k then some name else find_code rest code

-- A chain of `if (!strcasecmp(str, "...")) return k;`, and `return 0;` at its end.
unfoldable pub find_name : List (Bytes × ℕ) → Bytes → ℕ
find_name [] str = 0
find_name ((name, k) ∷ rest) str = if same_text str name then k else find_name rest str

abbrev pub type_names : List (ℕ × Bytes)
type_names =
    (1, (b'A' ∷ []))
    ∷ (2, (b'N' ∷ b'S' ∷ []))
    ∷ (5, (b'C' ∷ b'N' ∷ b'A' ∷ b'M' ∷ b'E' ∷ []))
    ∷ (6, (b'S' ∷ b'O' ∷ b'A' ∷ []))
    ∷ (12, (b'P' ∷ b'T' ∷ b'R' ∷ []))
    ∷ (15, (b'M' ∷ b'X' ∷ []))
    ∷ (16, (b'T' ∷ b'X' ∷ b'T' ∷ []))
    ∷ (28, (b'A' ∷ b'A' ∷ b'A' ∷ b'A' ∷ []))
    ∷ (33, (b'S' ∷ b'R' ∷ b'V' ∷ []))
    ∷ (41, (b'O' ∷ b'P' ∷ b'T' ∷ []))
    ∷ (252, (b'A' ∷ b'X' ∷ b'F' ∷ b'R' ∷ []))
    ∷ (255, (b'A' ∷ b'N' ∷ b'Y' ∷ []))
    ∷ []

unfoldable pub dns_type_tostr : ℕ → Option Bytes
dns_type_tostr code = find_code type_names code

abbrev pub class_names : List (ℕ × Bytes)
class_names =
    (1, (b'I' ∷ b'N' ∷ []))
    ∷ (3, (b'C' ∷ b'H' ∷ []))
    ∷ (4, (b'H' ∷ b'S' ∷ []))
    ∷ (254, (b'N' ∷ b'O' ∷ b'N' ∷ b'E' ∷ []))
    ∷ (255, (b'*' ∷ []))
    ∷ []

unfoldable pub dns_class_tostr : ℕ → Option Bytes
dns_class_tostr code = find_code class_names code

abbrev pub type_codes : List (Bytes × ℕ)
type_codes =
    ((b'A' ∷ []), 1)
    ∷ ((b'N' ∷ b'S' ∷ []), 2)
    ∷ ((b'C' ∷ b'N' ∷ b'A' ∷ b'M' ∷ b'E' ∷ []), 5)
    ∷ ((b'S' ∷ b'O' ∷ b'A' ∷ []), 6)
    ∷ ((b'P' ∷ b'T' ∷ b'R' ∷ []), 12)
    ∷ ((b'H' ∷ b'I' ∷ b'N' ∷ b'F' ∷ b'O' ∷ []), 13)
    ∷ ((b'M' ∷ b'X' ∷ []), 15)
    ∷ ((b'T' ∷ b'X' ∷ b'T' ∷ []), 16)
    ∷ ((b'A' ∷ b'A' ∷ b'A' ∷ b'A' ∷ []), 28)
    ∷ ((b'S' ∷ b'R' ∷ b'V' ∷ []), 33)
    ∷ []

unfoldable pub dns_get_type : Bytes → ℕ
dns_get_type str = find_name type_codes str

abbrev pub class_codes : List (Bytes × ℕ)
class_codes =
    ((b'I' ∷ b'N' ∷ []), 1)
    ∷ ((b'C' ∷ b'S' ∷ []), 2)
    ∷ ((b'C' ∷ b'H' ∷ []), 3)
    ∷ ((b'H' ∷ b'S' ∷ []), 4)
    ∷ ((b'A' ∷ b'N' ∷ b'Y' ∷ []), 255)
    ∷ []

unfoldable pub dns_get_class : Bytes → ℕ
dns_get_class str = find_name class_codes str

abbrev pub flag_codes : List (Bytes × ℕ)
flag_codes =
    ((b'C' ∷ b'D' ∷ []), 0x0800) ∷ ((b'R' ∷ b'D' ∷ []), 0x0100) ∷ ((b'A' ∷ b'D' ∷ []), 0x0020) ∷ []

unfoldable pub dns_get_flag : Bytes → ℕ
dns_get_flag str = find_name flag_codes str

-- The entries of the tables of strings that are not NULL.
abbrev pub opcode_strs : List (ℕ × Bytes)
opcode_strs =
    (0, codes "QUERY")
    ∷ (1, codes "IQUERY")
    ∷ (2, codes "STATUS")
    ∷ (4, codes "NOTIFY")
    ∷ (5, codes "UPDATE")
    ∷ []

abbrev pub rcode_strs : List (ℕ × Bytes)
rcode_strs =
    (0, codes "NoError")
    ∷ (1, codes "FormErr")
    ∷ (2, codes "ServFail")
    ∷ (3, codes "NXDomain")
    ∷ (4, codes "NotImp")
    ∷ (5, codes "Refused")
    ∷ (6, codes "YXDomain")
    ∷ (7, codes "YXRRSet")
    ∷ (8, codes "NXRRSet")
    ∷ (9, codes "NotAuth")
    ∷ (10, codes "NotZone")
    ∷ (16, codes "BADSIG")
    ∷ (17, codes "BADKEYA")
    ∷ (18, codes "BADTIME")
    ∷ (19, codes "BADMODE")
    ∷ (20, codes "BADNAMEA")
    ∷ (21, codes "BADALGA")
    ∷ (22, codes "BADTRUC")
    ∷ []
