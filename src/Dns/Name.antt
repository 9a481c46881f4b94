-- ===== src/Dns/Name.antt =====
-- Domain names on the wire: `decode_name` and `encode_name` of src/dns_proto.c.
pub mod Wire
pub mod Decode
pub mod Encode
pub mod RoundTrip
