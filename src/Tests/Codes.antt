-- ===== src/Tests/Codes.antt =====
-- Names of types, classes and flags.
use c_dns_pkt.Prelude.{◌≡◌, refl, true, [], ◌∷◌, some, if◌then◌else◌}
use c_dns_pkt.Mem.{Bytes}
use c_dns_pkt.Dns.Name.Encode.{same_text}
use c_dns_pkt.Dns.Codes.{find_code, dns_type_tostr, dns_get_type, dns_get_class, dns_get_flag}
use c_dns_pkt.Dns.Codes.RoundTrip.{print_only, dns_get_type-dns_type_tostr, codes-same_text}

abbrev mx : Bytes
mx = b'M' ∷ b'X' ∷ []

mx_name : dns_type_tostr 15 ≡ some mx
unfolding dns_type_tostr find_code
mx_name = refl

dns_get_type-dns_type_tostr_example : dns_get_type mx ≡ (if print_only 15 then 0 else 15)
dns_get_type-dns_type_tostr_example = dns_get_type-dns_type_tostr 15 mx mx_name

mx_case : same_text (b'm' ∷ b'X' ∷ []) mx ≡ true
unfolding same_text
mx_case = refl

codes-same_text_example :
    (dns_get_type (b'm' ∷ b'X' ∷ []) ≡ dns_get_type mx)
    × (dns_get_class (b'm' ∷ b'X' ∷ []) ≡ dns_get_class mx)
    × (dns_get_flag (b'm' ∷ b'X' ∷ []) ≡ dns_get_flag mx)
codes-same_text_example = codes-same_text (b'm' ∷ b'X' ∷ []) mx mx_case
