-- ===== src/Dns/Decode/Scratch.antt =====
-- The scratch buffer `dec->msg` of src/dns_proto.c: names that are decoded into it, text that is
-- printed into it, and strings that go from it to the names store. A pointer into it is an index.
use c_dns_pkt.Prelude.{
  ℕ, zero, suc, ◌+◌, ◌-◌, Bool, [], ◌∷◌, ◌++◌, length, none, some, Exec, ltb, leb, if◌then◌else◌, ℤ,
  pos, negsuc,
}
use c_dns_pkt.Mem.{Bytes, write_at, read_at, c_string, codes}
use c_dns_pkt.Dns.Name.Decode.{Decoded, named, failed, decode_name}
use c_dns_pkt.Dns.Message.{Stored, msg_store_str}
use c_dns_pkt.Dns.Decode.{
  Cmd, ◌>>=◌, ◌>>◌, pure, return, input, decoder, message, modify, modify_msg, run, seek,
  dns_msg_size, negated, fail_with,
}
use c_dns_pkt.Dns.Decode.Report.{dns_rr, printed}

-- Bytes are stored at `wptr`.
unfoldable pub scratch : ℕ → Bytes → Cmd Unit
scratch wptr bs = do
  dec ← decoder
  msg ← run (write_at wptr bs dec.msg)
  modify (λ dec. record dec { msg = msg })

-- What `decode_name` leaves, and the code that it returns.
unfoldable pub settle : ℕ → Decoded → Cmd ℤ
settle wptr (named offset name rc) = scratch wptr name >> seek offset >> pure (pos rc)
settle wptr (failed offset ec name) = scratch wptr name >> seek offset >> pure (negated ec)

-- `decode_name(dec, wptr, wend - wptr)`
unfoldable pub decode_to : ℕ → Cmd ℤ
decode_to wptr = do
  c ← input
  dec ← decoder
  d ← run (decode_name c.pkt_buf Bool.true (dns_msg_size - wptr) dec.offset)
  settle wptr d

-- The string is stored at `buf`, which has `len` bytes left.
unfoldable pub dns_add_str : ℕ → ℕ → Bytes → Cmd ℤ
dns_add_str buf len str =
    if ltb len (length str + 1)
    then pure (negsuc 0)
    else scratch buf (str ++ 0 ∷ []) >> pure (pos (length str))

unfoldable pub fix_label : ℤ → ℕ → Cmd ℤ
fix_label (negsuc n) wptr = pure (negsuc n)
fix_label (pos zero) wptr = pure (pos 0)
fix_label (pos (suc zero)) wptr = dns_add_str wptr (dns_msg_size - wptr) (codes ".")
fix_label (pos (suc (suc n))) wptr = pure (pos (suc n))

-- `if (rc < 0) return rc;`
unfoldable pub or_return : ℤ → Cmd ℕ
or_return (pos n) = pure n
or_return (negsuc n) = return (negsuc n)

-- `if (rc < 0) return dns_dec_err(dec, DNS_RR, field, -rc);`
unfoldable pub or_error : ℕ → ℤ → Cmd ℤ
or_error field (pos n) = pure (pos n)
or_error field (negsuc n) = fail_with dns_rr field (pos (suc n))

-- A name of a record is decoded at `wptr`; the length of its text goes to `rc`.
unfoldable pub label_to : ℕ → ℕ → Cmd ℕ
label_to field wptr = do
  rc ← decode_to wptr
  rc ← or_error field rc
  rc ← fix_label rc wptr
  or_return rc

-- The C string at `wptr`.
unfoldable pub text_at : ℕ → Cmd Bytes
text_at wptr = do dec ← decoder; run (c_string wptr dec.msg)

-- `msg_store_str(msg, str, len)`, for the pointer that is returned.
unfoldable pub put_string : Bytes → Cmd Stored
put_string str = do
  msg ← message
  let (names, p) = msg_store_str msg.names str
  modify_msg (λ msg. record msg { names = names })
  pure p

-- `if (!p) return -1;`
unfoldable pub not_null : Stored → Cmd Stored
not_null none = return (negsuc 0)
not_null (some i) = pure (some i)

-- Under `if (rr)`, `msg_store_name(msg, wptr)` with the test of its result.
unfoldable pub keep_name : ℕ → Cmd Stored
keep_name wptr = do
  c ← input
  if c.load_msg then (text_at wptr >>= put_string >>= not_null) else pure none

-- The same, for `len` bytes of the packet.
unfoldable pub keep_bytes : ℕ → Cmd Stored
keep_bytes len = do
  c ← input
  dec ← decoder
  if c.load_msg
      then (run (read_at dec.offset len c.pkt_buf) >>= put_string >>= not_null)
      else pure none

-- `wptr += rc`, a pointer into the scratch buffer or to its end.
unfoldable pub advance : ℕ → ℕ → Cmd ℕ
advance wptr rc = if leb (wptr + rc) dns_msg_size then pure (wptr + rc) else run Exec.fault

-- `rc = snprintf(wptr, wend - wptr, ...); wptr += rc;`
unfoldable pub print_to : ℕ → Bytes → Cmd ℕ
print_to wptr text = scratch wptr (printed (dns_msg_size - wptr) text) >> advance wptr (length text)

-- The same under `if (dec->need_emsg)`.
unfoldable pub describe : ℕ → Bytes → Cmd ℕ
describe wptr text = do c ← input; if c.need_emsg then print_to wptr text else pure wptr
