-- ===== src/Dns/Name/Encode.antt =====
-- `encode_name` of src/dns_proto.c, with the table of suffixes of `struct dns_enc`. A write outside
-- of the packet buffer is a fault.
pub mod Domain
pub mod Table
pub mod Encoded
pub mod Labels
pub mod Correct
use c_dns_pkt.Prelude.{
  ℕ, zero, suc, ◌+◌, ◌%◌, ◌^◌, Bool, true, false, ◌&&◌, List, [], ◌∷◌, ◌++◌, length, take, bit_or,
  Option, none, some, Exec, ok, stuck, ◌>>=◌, ltb, leb, ◌==◌, if◌then◌else◌,
}
use c_dns_pkt.Mem.{Bytes, or_empty, write_at}
use c_dns_pkt.Words.{u16_bytes}
use c_dns_pkt.Dns.{dns_label_maxstr, dns_max_suffix}

-- struct dns_suffix. `name` is the text that the pointer leads to, up to its zero byte.
pub record Suffix : Type 0 where
  pub name : Bytes
  pub offset : ℕ

-- struct dns_enc. The list of suffixes has `num_suffix` elements.
pub record Enc : Type 0 where
  pub pkt_buf : Bytes
  pub pkt_max : ℕ
  pub pkt_len : ℕ
  pub suffix : List Suffix

-- tolower of the C locale
abbrev pub lower : ℕ → ℕ
lower c = if leb b'A' c && leb c b'Z' then c + 32 else c

-- strcasecmp(s, t) == 0
unfoldable pub same_text : Bytes → Bytes → Bool
same_text [] [] = true
same_text (x ∷ xs) (y ∷ ys) = lower x == lower y && same_text xs ys
same_text _ _ = false

-- The loop over the table: the offset of the first suffix that matches.
unfoldable pub find_suffix : List Suffix → ℕ → Bytes → Option ℕ
find_suffix [] start name = none
find_suffix (s ∷ rest) start name =
    if ltb s.offset start && same_text s.name name
    then some s.offset
    else find_suffix rest start name

-- A new entry, if the table is not full. `offset` is a uint16_t.
unfoldable pub add_suffix : Enc → ℕ → Bytes → Enc
add_suffix enc wptr name =
    if ltb (length enc.suffix) dns_max_suffix
    then record enc { suffix = enc.suffix ++ record { name = name; offset = wptr % 2 ^ 16 } ∷ [] }
    else enc

-- strchr(name, '.'): what stands before the first dot, and behind it if there is one.
unfoldable pub split_dot : Bytes → Bytes × Option Bytes
split_dot [] = ([], none)
split_dot (c ∷ cs) =
    let (label, rest) = split_dot cs in if c == b'.' then ([], some cs) else (c ∷ label, rest)

-- A store through `wptr`.
unfoldable pub enc_put : Enc → ℕ → Bytes → Exec Enc
enc_put enc wptr bs = do buf ← write_at wptr bs enc.pkt_buf; ok (record enc { pkt_buf = buf })

-- The loop over the labels of `name`; `start` is the index at which the name begins. The result is
-- `wptr` behind the name, or `none` for NULL.
unfoldable pub name_labels : ℕ → ℕ → Enc → ℕ → Bytes → Exec (Enc × Option ℕ)
name_labels zero start enc wptr name = stuck
name_labels (suc fuel) start enc wptr [] = do
  enc' ← enc_put enc wptr (0 ∷ [])
  ok (enc', some (wptr + 1))
name_labels (suc fuel) start enc wptr (c ∷ cs) = elim (find_suffix enc.suffix start (c ∷ cs)) [
  | some offset ↦ do
    enc' ← enc_put enc wptr (u16_bytes (bit_or 0xC000 offset))
    ok (enc', some (wptr + 2))
  | none ↦
      let enc1 = add_suffix enc wptr (c ∷ cs) in
      let (label, rest) = split_dot (c ∷ cs) in
      let len = length label % 2 ^ 8 in
      if ltb dns_label_maxstr len then ok (enc1, none) else (do
        enc2 ← enc_put enc1 wptr (len ∷ take len label)
        name_labels fuel start enc2 (wptr + 1 + len) (or_empty rest))
]

-- Each round takes a byte of the name at least. A null pointer is read as the empty name.
unfoldable pub encode_name : Enc → ℕ → Option Bytes → Exec (Enc × Option ℕ)
encode_name enc wptr name = name_labels (length (or_empty name) + 1) wptr enc wptr (or_empty name)
