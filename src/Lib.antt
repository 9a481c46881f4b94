-- ===== src/Lib.antt =====
-- The DNS codec of c-dns-pkt.
--
-- The program decodes, checks, prints, builds and encodes DNS messages (src/dns_proto.c and
-- src/dns_proto.h) on byte buffers (src/str_util.h). The programs dns-insp and dns-gen call it on
-- captured packets and on messages that they build from a command line.
--
-- Parts:
--   Flow                   what a call does: it goes on with a result, or its caller returns a code.
--   Prelude, Prelude/...   names of the libraries passed on; Boolean tests, lists and bit
--                          operations over native numbers, integers, and `Exec`, the result of code
--                          that may fault.
--   Mem, Mem/Laws, Text    byte buffers and the strings in them. A buffer is the list of its bytes, a pointer into it is an
--                          index. A read or a write outside of the buffer is `fault`, never a value.
--   Words, Words/...       src/str_util.h: enc_u16, enc_u32, dec_u16, dec_u32.
--   Numbers, .../Decimal   src/util.c: itoa, u32toa, int_tostr, u32_tostr.
--   Dns                    src/dns_proto.h: the limits, and the error codes of src/dns_proto.c.
--   Dns/Header, ...        struct dns_hdr, dns_hdr_reset, dns_hdr_init, dns_hdr_decode, and the
--                          stores of encode_hdr.
--   Dns/Name/Wire          what a domain name on the wire is, as an inductive relation that is
--                          stated without the code.
--   Dns/Name/Decode, ...   decode_name: one function per branch of its loop. A round of the loop
--                          ends by `again`, `break` or `return`.
--   Dns/Name/Encode, ...   encode_name with struct dns_enc and its table of suffixes.
--   Dns/Name/RoundTrip     the two against each other and against Wire.
--   Dns/Message, ...       struct dns_msg, dns_rr and dns_qd, the names store (msg_store_str),
--                          dns_add_rr, dns_add_qdn, dns_add_qd, dns_get_rr, dns_cnt_rr.
--   Dns/Encode, ...        the message encoder: space in the packet (dns_enc_mkspace), questions, records
--                          (dns_rr_encode), sections and dns_msg_encode.
--   Dns/Encode/Built, Query a query from the calls that build it to its bytes and back.
--   Dns/Codes, ...         dns_type_tostr, dns_class_tostr, dns_get_type, dns_get_class, dns_get_flag.
--   Dns/Decode             the message decoder: struct dns_dec, its input, and commands that read the
--                          packet, change the decoder and the message, and return or go on.
--   .../Report, Scratch    errors (dns_dec_err, dns_dec_genmsg, dns_wmsg) and the scratch buffer.
--   .../Rdata, Record      dns_rr_decode: the switch on the type, the fields, the sections.
--   .../Message            dns_qd_decode, decode_hdr, decode_msg, dns_msg_decode, dns_validate.
--   .../Runs/...           what each of these does when it loads a message, from the strings up to
--                          the whole packet. Runs/Loaded has the invariants.
--   .../Query, Faults      the decoder against the encoder, and the records that break it.
--   Sbuf, Sbuf/...         src/str_util.h: struct sbuf and the sbuf_* calls; Sbuf/Refines has the
--                          specification, a bounded string.
--   Slice, Slice/...       src/str_util.h: struct slice and the str_* and slice_* calls that split, trim,
--                          unbracket, search and read numbers.
--   Ip4, Ip4/RoundTrip     IPv4 addresses as text: uint8_toa, ip4_str_encode, ip4_str_decode.
--   Pcap, Pcap/Legacy      src/pcap.c: struct pcap_file, the file below it, and the classic format.
--   Pcap/Read, Write, Api  the blocks of pcapng, and pcap_read, pcap_write and the choice of the format.
--   Pcap/Runs, .../Bounds  how these calls end.
--   .../Written, RoundTrip what a write appends, and the write against the read.
--   Tests/...              runs on concrete inputs.
--
-- A message's string is the index of its first byte in the names store, and NULL is `none`. A
-- string that a caller passes is its bytes up to the zero byte. errno and log lines are left out. The
-- union of struct dns_rr and its `type` are one data type, whose constructor is the type.
--
-- Fuel: the loop of decode_name runs on 18 * (packet length + 1) rounds. Between two jumps each
-- round goes forward in the packet, and the 18th jump is refused. Running out is `stuck`, a value
-- that no exit of the code gives. The loop of encode_name runs on the length of the name plus one,
-- since each round takes a byte of the name at least.
--
-- The loop over the strings of a TXT record runs on the
-- length of the data plus one, since each round takes a byte. The loops over sections and questions
-- run on the counts of the header. The loop of itoa runs on the size of its buffer: each round stores
-- a byte.
--
-- The loop of pcap_read_xpb runs on the length of the file plus one, since each round reads a part of
-- the file and goes forward.
--
-- The strings that a record of a section holds when the decoder fills it in are a parameter of
-- the decoder, `held`: the decoder adds the strings of a TXT record to them. The wrap-around list of
-- buffers of int_tostr is one buffer of zero bytes.
--
-- Not modelled: the conversion of messages to text, the comparisons of strings, IPv6 addresses as text,
-- command lines, opening and closing of packet capture files, the two programs, logging and the eBPF filter. Pure input and output
-- stay outside; the others are pure code that no file here covers. Of the decoder, the mode that
-- describes a packet has no theorem on whole packets.
pub mod Dns
pub mod Flow
pub mod Ip4
pub mod Mem
pub mod Numbers
pub mod Pcap
pub mod Prelude
pub mod Sbuf
pub mod Slice
pub mod Tests
pub mod Words
