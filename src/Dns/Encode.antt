-- ===== src/Dns/Encode.antt =====
-- The encoder of messages of src/dns_proto.c: space in the packet, questions, records, sections and
-- the whole message. Log lines are left out.
pub mod Space
pub mod Question
pub mod Built
pub mod Query
pub mod Faults
use c_dns_pkt.Prelude.{
  ℕ, zero, suc, ◌+◌, ◌-◌, ◌*◌, ◌%◌, ◌^◌, Bool, List, [], ◌∷◌, length, bit_and, bit_or, Option, none,
  some, Exec, ok, ◌>>=◌, ltb, ◌==◌, if◌then◌else◌, ℤ, pos, negsuc, drop,
}
use c_dns_pkt.Mem.{Bytes, Str, or_empty}
use c_dns_pkt.Words.{enc_u16, enc_u32}
use c_dns_pkt.Dns.{dns_name_maxlen, dns_hdr_len}
use c_dns_pkt.Dns.Header.{Header, put_hdr}
use c_dns_pkt.Dns.Name.Encode.{Enc, enc_put, encode_name}
use c_dns_pkt.Dns.Message.{
  Rdata, a, ns, cname, soa, ptr, hinfo, mx, txt, aaaa, srv, opt, raw, Rr, Qd, Msg, Stored, rr_type,
  up_to_zero,
}

-- What most functions return: the encoder and the code.
abbrev pub Coded : Type 0
Coded = Exec (Enc × ℤ)

-- `if (rc) return rc;` and what follows.
abbrev pub on_zero : Enc × ℤ → (Enc → Coded) → Coded
on_zero (enc, pos zero) next = next enc
on_zero (enc, pos (suc n)) next = ok (enc, pos (suc n))
on_zero (enc, negsuc n) next = ok (enc, negsuc n)

-- `if (!wptr) return -1;` and what follows.
abbrev pub on_ptr : Enc × Option ℕ → (Enc → ℕ → Coded) → Coded
on_ptr (enc, none) next = ok (enc, negsuc 0)
on_ptr (enc, some wptr) next = next enc wptr

unfoldable pub dns_enc_retspace : Enc → ℕ → Enc × ℤ
dns_enc_retspace enc len =
    if ltb enc.pkt_len len
    then (enc, negsuc 0)
    else (record enc { pkt_len = enc.pkt_len - len }, pos 0)

-- The index of the space in the packet, or `none` for NULL. `enc_fld_mkspace` is the same call.
unfoldable pub dns_enc_mkspace : Enc → ℕ → Enc × Option ℕ
dns_enc_mkspace enc len =
    if ltb enc.pkt_max ((enc.pkt_len + len) % 2 ^ 64)
    then (enc, none)
    else (record enc { pkt_len = enc.pkt_len + len }, some enc.pkt_len)

-- `len - used` of two size_t
abbrev pub size_sub : ℕ → ℕ → ℕ
size_sub len used = (len + 2 ^ 64 - used) % 2 ^ 64

unfoldable pub put_u16 : Enc → ℕ → ℕ → Exec (Enc × ℕ)
put_u16 enc wptr value = do
  (buf, wptr) ← enc_u16 enc.pkt_buf wptr value
  ok (record enc { pkt_buf = buf }, wptr)

unfoldable pub put_u32 : Enc → ℕ → ℕ → Exec (Enc × ℕ)
put_u32 enc wptr value = do
  (buf, wptr) ← enc_u32 enc.pkt_buf wptr value
  ok (record enc { pkt_buf = buf }, wptr)

unfoldable pub dns_enc_quest : Enc → Qd Str → Coded
dns_enc_quest enc quest =
    let len = dns_name_maxlen + 4 in
    on_ptr (dns_enc_mkspace enc len) (λ enc wbuf. do
      named ← encode_name enc wbuf quest.qname
      on_ptr named (λ enc wptr. do
        (enc, wptr) ← put_u16 enc wptr quest.qtype
        (enc, wptr) ← put_u16 enc wptr quest.qclass
        ok (dns_enc_retspace enc (size_sub len (wptr - wbuf)))))

unfoldable pub dns_enc_name : Enc → Str → Coded
dns_enc_name enc name = on_ptr (dns_enc_mkspace enc dns_name_maxlen) (λ enc wbuf. do
  named ← encode_name enc wbuf name
  on_ptr named (λ enc wptr. ok (dns_enc_retspace enc (size_sub dns_name_maxlen (wptr - wbuf)))))

-- `mem` is its `len` bytes.
unfoldable pub dns_enc_mem : Enc → Bytes → Coded
dns_enc_mem enc mem =
    on_ptr (dns_enc_mkspace enc (length mem))
      (λ enc wbuf. do enc ← enc_put enc wbuf mem; ok (enc, pos 0))

-- The length goes into a byte.
unfoldable pub dns_enc_str : Enc → Bytes → Coded
dns_enc_str enc str = on_ptr (dns_enc_mkspace enc (length str + 1)) (λ enc wbuf. do
  enc ← enc_put enc wbuf (length str % 2 ^ 8 ∷ [])
  enc ← enc_put enc (wbuf + 1) str
  ok (enc, pos 0))

-- The loop over the strings of a TXT record. A null pointer has length 0.
unfoldable pub enc_strs : Enc → List Str → Coded
enc_strs enc [] = ok (enc, pos 0)
enc_strs enc (str ∷ rest) = do
  done ← dns_enc_str enc (or_empty str)
  on_zero done (λ enc. enc_strs enc rest)

-- The ttl of an OPT record, a uint32_t.
unfoldable pub opt_ttl : ℕ → ℕ → ℕ → ℕ → ℕ
opt_ttl ext_rcode edns_ver do_bit z_bits =
    let ttl = bit_or (ext_rcode * 2 ^ 24 % 2 ^ 32) (edns_ver * 2 ^ 16 % 2 ^ 32) in
    let ttl = if do_bit == 0 then ttl else bit_or ttl 0x8000 in bit_or ttl (bit_and z_bits 0x7fff)

-- The switch of `dns_rr_encode`; `rdlen_ptr` is where the length of the data goes. The second
-- length of a HINFO record goes right behind its first one, since `wptr` stays there.
unfoldable pub encode_rdata : Enc → ℕ → Rdata Str → Coded
encode_rdata enc rdlen_ptr (a addr) = dns_enc_mem enc addr
encode_rdata enc rdlen_ptr (ns name) = dns_enc_name enc name
encode_rdata enc rdlen_ptr (cname name) = dns_enc_name enc name
encode_rdata enc rdlen_ptr (soa mname rname serial refresh retry expire min_ttl) = do
  done ← dns_enc_name enc mname
  on_zero done (λ enc. do
    done ← dns_enc_name enc rname
    on_zero done (λ enc. on_ptr (dns_enc_mkspace enc 20) (λ enc wptr. do
      (enc, wptr) ← put_u32 enc wptr serial
      (enc, wptr) ← put_u32 enc wptr refresh
      (enc, wptr) ← put_u32 enc wptr retry
      (enc, wptr) ← put_u32 enc wptr expire
      (enc, wptr) ← put_u32 enc wptr min_ttl
      ok (enc, pos 0))))
encode_rdata enc rdlen_ptr (ptr name) = dns_enc_name enc name
encode_rdata enc rdlen_ptr (hinfo cpu_str os_str) =
    let len_cpu = length (or_empty cpu_str) in
    let len_os = length (or_empty os_str) in
    on_ptr (dns_enc_mkspace enc (2 + len_cpu + len_os)) (λ enc wptr. do
      enc ← enc_put enc wptr (len_cpu % 2 ^ 8 ∷ [])
      enc ← enc_put enc (wptr + 1) (or_empty cpu_str)
      enc ← enc_put enc (wptr + 1) (len_os % 2 ^ 8 ∷ [])
      enc ← enc_put enc (wptr + 2) (or_empty os_str)
      ok (enc, pos 0))
encode_rdata enc rdlen_ptr (mx pref name) =
    on_ptr (dns_enc_mkspace enc 4)
      (λ enc wptr. do (enc, wptr) ← put_u16 enc wptr pref; dns_enc_name enc name)
encode_rdata enc rdlen_ptr (txt strs) = enc_strs enc strs
encode_rdata enc rdlen_ptr (aaaa addr) = dns_enc_mem enc addr
encode_rdata enc rdlen_ptr (srv prior weight port name) =
    on_ptr (dns_enc_mkspace enc 2) (λ enc wptr. do
      (enc, wptr) ← put_u16 enc wptr prior
      (enc, wptr) ← put_u16 enc wptr weight
      (enc, wptr) ← put_u16 enc wptr port
      dns_enc_name enc name)
encode_rdata enc rdlen_ptr (opt udp_size ext_rcode edns_ver do_bit z_bits) = do
  (enc, wptr) ← put_u16 enc (rdlen_ptr - 6) udp_size
  (enc, wptr) ← put_u16 enc wptr (opt_ttl ext_rcode edns_ver do_bit z_bits)
  ok (enc, pos 0)
encode_rdata enc rdlen_ptr (raw type) = ok (enc, pos 0)

-- The two lengths of the packet are cut to a uint16_t, and so is their difference.
unfoldable pub dns_rr_encode : Enc → Rr Str → Coded
dns_rr_encode enc rr =
    let len = dns_name_maxlen + 10 in
    on_ptr (dns_enc_mkspace enc len) (λ enc wbuf. do
      named ← encode_name enc wbuf rr.name
      on_ptr named (λ enc wptr. do
        (enc, wptr) ← put_u16 enc wptr (rr_type rr.rdata)
        (enc, wptr) ← put_u16 enc wptr rr.class
        (enc, rdlen_ptr) ← put_u32 enc wptr rr.ttl
        (enc, wptr) ← put_u16 enc rdlen_ptr 0
        on_zero (dns_enc_retspace enc (size_sub len (wptr - wbuf))) (λ enc. do
          let pkt_len = enc.pkt_len % 2 ^ 16
          done ← encode_rdata enc rdlen_ptr rr.rdata
          on_zero done (λ enc. do
            (enc, wptr) ← put_u16 enc rdlen_ptr ((enc.pkt_len + 2 ^ 16 - pkt_len) % 2 ^ 16)
            ok (enc, pos 0)))))

unfoldable pub dns_sect_enc : Enc → List (Rr Str) → Coded
dns_sect_enc enc [] = ok (enc, pos 0)
dns_sect_enc enc (rr ∷ rest) = do
  done ← dns_rr_encode enc rr
  on_zero done (λ enc. dns_sect_enc enc rest)

unfoldable pub encode_qd : Enc → List (Qd Str) → Coded
encode_qd enc [] = ok (enc, pos 0)
encode_qd enc (quest ∷ rest) = do
  done ← dns_enc_quest enc quest
  on_zero done (λ enc. encode_qd enc rest)

-- The counts of the header are set from the lists.
unfoldable pub sync_hdr : Msg → Header
sync_hdr msg = record (msg.hdr) {
  qd_count = length msg.qd;
  an_count = length msg.an;
  ns_count = length msg.ns;
  ar_count = length msg.ar;
}

unfoldable pub encode_hdr : Enc → Header → Coded
encode_hdr enc hdr = on_ptr (dns_enc_mkspace enc dns_hdr_len) (λ enc wbuf. do
  (buf, wptr) ← put_hdr hdr enc.pkt_buf wbuf
  ok (record enc { pkt_buf = buf }, pos 0))

-- What a string of a message reads as.
abbrev pub read_str : Bytes → Stored → Str
read_str names none = none
read_str names (some i) = some (up_to_zero (drop i names))

abbrev pub read_strs : Bytes → List Stored → List Str
read_strs names [] = []
read_strs names (s ∷ rest) = read_str names s ∷ read_strs names rest

abbrev pub read_rdata : Bytes → Rdata Stored → Rdata Str
read_rdata names (a addr) = a addr
read_rdata names (ns name) = ns (read_str names name)
read_rdata names (cname name) = cname (read_str names name)
read_rdata names (soa mname rname serial refresh retry expire min_ttl) =
    soa (read_str names mname) (read_str names rname) serial refresh retry expire min_ttl
read_rdata names (ptr name) = ptr (read_str names name)
read_rdata names (hinfo cpu_str os_str) = hinfo (read_str names cpu_str) (read_str names os_str)
read_rdata names (mx pref name) = mx pref (read_str names name)
read_rdata names (txt strs) = txt (read_strs names strs)
read_rdata names (aaaa addr) = aaaa addr
read_rdata names (srv prior weight port name) = srv prior weight port (read_str names name)
read_rdata names (opt udp_size ext_rcode edns_ver do_bit z_bits) =
    opt udp_size ext_rcode edns_ver do_bit z_bits
read_rdata names (raw type) = raw type

abbrev pub read_rr : Bytes → Rr Stored → Rr Str
read_rr names rr = record {
  name = read_str names rr.name;
  class = rr.class;
  ttl = rr.ttl;
  rdlen = rr.rdlen;
  rdata = read_rdata names rr.rdata;
}

abbrev pub read_rrs : Bytes → List (Rr Stored) → List (Rr Str)
read_rrs names [] = []
read_rrs names (rr ∷ rest) = read_rr names rr ∷ read_rrs names rest

abbrev pub read_qds : Bytes → List (Qd Stored) → List (Qd Str)
read_qds names [] = []
read_qds names (q ∷ rest) =
    record { qname = read_str names q.qname; qtype = q.qtype; qclass = q.qclass }
    ∷ read_qds names rest

-- The header of the message is set, too; `dns_msg_encode` returns the message with it.
unfoldable pub encode_msg : Enc → Msg → Coded
encode_msg enc msg = do
  done ← encode_hdr enc (sync_hdr msg)
  on_zero done (λ enc. do
    done ← encode_qd enc (read_qds msg.names msg.qd)
    on_zero done (λ enc. do
      done ← dns_sect_enc enc (read_rrs msg.names msg.an)
      on_zero done (λ enc. do
        done ← dns_sect_enc enc (read_rrs msg.names msg.ns)
        on_zero done (λ enc. dns_sect_enc enc (read_rrs msg.names msg.ar)))))

abbrev packet_len : Enc × ℤ → ℤ
packet_len (enc, pos zero) = pos enc.pkt_len
packet_len (enc, pos (suc n)) = negsuc 0
packet_len (enc, negsuc n) = negsuc 0

-- The message and the buffer after the call, and the length that is returned.
unfoldable pub dns_msg_encode : Msg → Bytes → ℕ → Exec (Msg × Bytes × ℤ)
dns_msg_encode msg buf len = do
  done ← encode_msg (record { pkt_buf = buf; pkt_max = len; pkt_len = 0; suffix = [] }) msg
  ok (record msg { hdr = sync_hdr msg }, done.0.pkt_buf, packet_len done)
