-- ===== src/Dns/Name/Decode.antt =====
-- `decode_name` of src/dns_proto.c. The packet is the list of its `pkt_len` bytes. A read outside of
-- it, or a write past the `nlen` bytes of the output buffer, is a fault.
pub mod Rounds
pub mod Safe
pub mod Complete
use c_dns_pkt.Prelude.{
  ℕ, zero, suc, ◌+◌, ◌-◌, ◌*◌, ◌^◌, Bool, [], ◌∷◌, ◌++◌, length, bit_and, bit_or, Exec, ok, fault,
  stuck, ◌>>=◌, ℤ, pos, negsuc, ltb, leb, ◌==◌, if◌then◌else◌, not,
}
use c_dns_pkt.Mem.{Bytes, byte_at, read_at}
use c_dns_pkt.Dns.{
  dns_comp_ptr, dns_max_jmp, dns_hdr_len, dns_ebadjmp, dns_emaxjmp, dns_enamelen, dns_eoutlen,
  dns_enonull,
}

-- What `decode_name` leaves: `dec->offset`, the bytes stored in `name`, and either the count that is
-- returned, or the error whose negation is returned.
pub data Decoded : Type 0 where
  named : (offset : ℕ) (name : Bytes) (rc : ℕ) → Decoded
  failed : (offset ec : ℕ) (name : Bytes) → Decoded

-- The variables of the loop. `name` holds the bytes written so far.
pub record NameVars : Type 0 where
  pub len : ℤ
  pub pkt_idx : ℕ
  pub offset : ℕ
  pub out_len : ℕ
  pub njmp : ℕ
  pub name : Bytes

-- How one round of the loop ends: by `continue` or at its end, by `break`, or by a `return`.
pub data Round : Type 0 where
  again : NameVars → Round
  break : NameVars → Round
  return : Decoded → Round

abbrev pub fail : NameVars → ℕ → Exec Round
fail v ec = ok (return (failed v.offset ec v.name))

module _ (pkt : Bytes) (store : Bool) (nlen : ℕ) where
  -- `if (name)` and a copy to it.
  unfoldable pub emit : Bytes → Bytes → Exec Bytes
  emit name bs =
      if store
      then (if leb (length name + length bs) nlen then ok (name ++ bs) else fault)
      else ok name

  -- The end of the branch for a compression pointer, at the position that it names.
  unfoldable pub land : NameVars → ℕ → Exec Round
  land v target =
      if ltb target dns_hdr_len
      then fail v dns_ebadjmp
      else if ltb (length pkt) target
      then fail v dns_ebadjmp
      else ok (again (record v { len = pos target; pkt_idx = target }))

  -- The branch for a compression pointer; `pkt_idx` is behind its first byte, `len`.
  unfoldable pub jump : NameVars → ℕ → Exec Round
  jump v len =
      let w = record v {
        njmp = v.njmp + 1;
        offset = if v.njmp + 1 == 1 then v.offset + 2 else v.offset;
      } in
      if v.pkt_idx == length pkt
      then fail v dns_ebadjmp
      else if ltb dns_max_jmp v.njmp
      then fail v dns_emaxjmp
      else (do low ← byte_at pkt v.pkt_idx; land w (bit_or (bit_and len 0x3F * 2 ^ 8) low))

  -- `if (pkt_idx < dec->pkt_len && dec->pkt_buf[pkt_idx])`
  unfoldable pub dot_follows : ℕ → Exec Bool
  dot_follows pkt_idx =
      if ltb pkt_idx (length pkt)
      then (do b ← byte_at pkt pkt_idx; ok (not (b == 0)))
      else ok Bool.false

  -- Behind a label: a dot if there is more to come.
  unfoldable pub add_dot : NameVars → Exec Round
  add_dot v = if v.out_len == 0 then fail v dns_eoutlen else (do
    dotted ← dot_follows v.pkt_idx
    name ← emit v.name (if dotted then b'.' ∷ [] else [])
    ok (again (record v { out_len = if dotted then v.out_len - 1 else v.out_len; name = name })))

  -- A label of `len` bytes is copied.
  unfoldable pub copy_label : NameVars → ℕ → Exec Round
  copy_label v len = do
    bytes ← read_at v.pkt_idx len pkt
    name ← emit v.name bytes
    add_dot (record v {
      len = pos len;
      pkt_idx = v.pkt_idx + len;
      out_len = v.out_len - len;
      name = name;
    })

  -- The branch for a label; `pkt_idx` is behind its length, `len`.
  unfoldable pub label : NameVars → ℕ → Exec Round
  label v len =
      if ltb (length pkt - v.pkt_idx) len
      then fail v dns_enamelen
      else if ltb v.out_len len
      then fail v dns_eoutlen
      else let w = record v { offset = if v.njmp == 0 then v.offset + 1 + len else v.offset } in
        if len == 0 then ok (break (record w { len = pos len })) else copy_label w len

  unfoldable pub round : NameVars → Exec Round
  round v = do
    len ← byte_at pkt v.pkt_idx
    let w = record v { pkt_idx = v.pkt_idx + 1 }
    if bit_and len dns_comp_ptr == dns_comp_ptr then jump w len else label w len

  -- What stands behind the loop.
  unfoldable pub finish : NameVars → Exec Decoded
  finish v = elim v.len [
    | negsuc n ↦ ok (failed v.offset dns_enonull v.name)
    | pos len ↦
        if not (len == 0)
        then ok (failed v.offset dns_enonull v.name)
        else if v.out_len == 0
        then ok (failed v.offset dns_eoutlen v.name)
        else do
          name ← emit v.name (0 ∷ [])
          let out_len = if store then v.out_len - 1 else v.out_len
          ok (named v.offset name (nlen - out_len))
  ]

  unfoldable pub name_loop : ℕ → NameVars → Exec Decoded
  name_loop zero v = stuck
  name_loop (suc fuel) v =
      if ltb v.pkt_idx (length pkt)
      then (do
        r ← round v
        elim r [ again w ↦ name_loop fuel w | break w ↦ finish w | return d ↦ ok d ])
      else finish v

  -- Each label takes bytes of the packet, and there are 17 jumps at most.
  abbrev pub name_fuel : ℕ
  name_fuel = 18 * (length pkt + 1)

  abbrev pub name_start : ℕ → NameVars
  name_start offset = record {
    len = negsuc 0;
    pkt_idx = offset;
    offset = offset;
    out_len = nlen;
    njmp = 0;
    name = [];
  }

  unfoldable pub decode_name : ℕ → Exec Decoded
  decode_name offset = name_loop name_fuel (name_start offset)
