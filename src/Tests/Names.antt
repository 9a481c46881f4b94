-- ===== src/Tests/Names.antt =====
-- Names on concrete packets.
use c_dns_pkt.Prelude.{
  ℕ, ◌+◌, ◌≤◌, ◌≡◌, refl, [], ◌∷◌, ◌++◌, true, Bool, ◌&&◌, ok, All, ◌≢◌, ltb, some, length,
  get_elem?, arith,
}
use c_dns_pkt.Mem.{Bytes, IsByte, read_at, write_at, splice}
use c_dns_pkt.Dns.Name.Wire.{NameAt, Extends, root, label, pointer}
use c_dns_pkt.Dns.Name.Decode.{
  named, failed, emit, land, jump, dot_follows, add_dot, copy_label, round, finish, name_loop,
  decode_name,
}
use c_dns_pkt.Dns.Name.Decode
use c_dns_pkt.Dns.Name.Decode.Safe.{NameSafe, decode_name-NameSafe}
use c_dns_pkt.Dns.Name.Decode.Complete.{decode_name-NameAt}
use c_dns_pkt.Dns.Name.Encode.{
  Enc, same_text, find_suffix, add_suffix, split_dot, enc_put, name_labels, encode_name,
}
use c_dns_pkt.Dns.Name.Encode.Domain.{IsLabel, IsDomain, last, dotted}
use c_dns_pkt.Dns.Name.Encode.Table.{prefix, IsValid, Usable}
use c_dns_pkt.Dns.Name.RoundTrip.{encode_name-NameAt, encode_name-IsValid, decode_name-encode_name}

abbrev hdr : Bytes
hdr = 0 ∷ 0 ∷ 0 ∷ 0 ∷ 0 ∷ 0 ∷ 0 ∷ 0 ∷ 0 ∷ 0 ∷ 0 ∷ 0 ∷ []

-- `abc.d` at 12, and `e` with a pointer to it at 19.
abbrev pkt : Bytes
pkt = hdr ++ (3 ∷ b'a' ∷ b'b' ∷ b'c' ∷ 1 ∷ b'd' ∷ 0 ∷ 1 ∷ b'e' ∷ 0xc0 ∷ 12 ∷ [])

-- A pointer to itself.
abbrev loop_pkt : Bytes
loop_pkt = hdr ++ (0xc0 ∷ 12 ∷ [])

decode_plain :
    decode_name pkt true 100 12 ≡ ok (named 19 (b'a' ∷ b'b' ∷ b'c' ∷ b'.' ∷ b'd' ∷ 0 ∷ []) 6)
unfolding decode_name name_loop round jump Decode.label copy_label finish land add_dot emit
    dot_follows read_at
decode_plain = refl

decode_pointer :
    decode_name pkt true 100 19
    ≡ ok (named 23 (b'e' ∷ b'.' ∷ b'a' ∷ b'b' ∷ b'c' ∷ b'.' ∷ b'd' ∷ 0 ∷ []) 8)
unfolding decode_name name_loop round jump Decode.label copy_label finish land add_dot emit
    dot_follows read_at
decode_pointer = refl

decode_small_buffer : decode_name pkt true 5 12 ≡ ok (failed 18 5 (97 ∷ 98 ∷ 99 ∷ 46 ∷ 100 ∷ []))
unfolding decode_name name_loop round jump Decode.label copy_label finish land add_dot emit
    dot_follows read_at
decode_small_buffer = refl

decode_loop : decode_name loop_pkt true 100 12 ≡ ok (failed 14 3 [])
unfolding decode_name name_loop round jump Decode.label copy_label finish land add_dot emit
    dot_follows read_at
decode_loop = refl

decode_name-NameSafe_example : NameSafe loop_pkt true 100 12 (decode_name loop_pkt true 100 12)
decode_name-NameSafe_example = decode_name-NameSafe loop_pkt true 100 12

abbrev abc_d : Bytes
abc_d = b'a' ∷ b'b' ∷ b'c' ∷ b'.' ∷ b'd' ∷ []

abc_d_stands : NameAt (get_elem? pkt) 12 19 0 abc_d
abc_d_stands =
    label {next = 1} {text = b'd' ∷ []} (b'a' ∷ b'b' ∷ b'c' ∷ []) refl (omega arith) (omega arith)
      refl (refl, (refl, (refl, tt))) refl refl
      (label {next = 0} {text = []} (b'd' ∷ []) refl (omega arith) (omega arith) refl (refl, tt)
        refl refl (root refl refl) refl)
      refl

e_abc_d_stands : NameAt (get_elem? pkt) 19 23 1 (b'e' ∷ b'.' ∷ abc_d)
e_abc_d_stands =
    label {next = 0xc0} {text = abc_d} (b'e' ∷ []) refl (omega arith) (omega arith) refl (refl, tt)
      refl refl (pointer refl (omega arith) refl refl (omega arith) abc_d_stands refl) refl

decode_name-NameAt_example :
    decode_name pkt true 100 19
    ≡ ok (named 23 ((b'e' ∷ b'.' ∷ abc_d) ++ 0 ∷ []) (length (b'e' ∷ b'.' ∷ abc_d) + 1))
decode_name-NameAt_example =
    decode_name-NameAt pkt 100 (omega arith) e_abc_d_stands (omega arith) (omega arith)

abbrev nothing : Enc
nothing = record {
  pkt_buf = hdr ++ (0 ∷ 0 ∷ 0 ∷ 0 ∷ 0 ∷ 0 ∷ 0 ∷ 0 ∷ 0 ∷ 0 ∷ 0 ∷ 0 ∷ 0 ∷ 0 ∷ 0 ∷ 0 ∷ []);
  pkt_max = 28;
  pkt_len = 12;
  suffix = [];
}

abbrev one_name : Enc
one_name = record nothing {
  pkt_buf = hdr ++ (3 ∷ b'a' ∷ b'b' ∷ b'c' ∷ 1 ∷ b'd' ∷ 0 ∷ 0 ∷ 0 ∷ 0 ∷ 0 ∷ 0 ∷ 0 ∷ 0 ∷ 0 ∷ 0 ∷ []);
  suffix = record { name = abc_d; offset = 12 } ∷ record { name = b'd' ∷ []; offset = 16 } ∷ [];
}

abbrev e_d : Bytes
e_d = b'E' ∷ b'.' ∷ b'D' ∷ []

-- `E.D`: the second label is found in the table, and the pointer leads to it.
abbrev two_names : Enc
two_names = record one_name {
  pkt_buf =
      hdr
      ++ (3 ∷ b'a' ∷ b'b' ∷ b'c' ∷ 1 ∷ b'd' ∷ 0 ∷ 1 ∷ b'E' ∷ 0xc0 ∷ 16 ∷ 0 ∷ 0 ∷ 0 ∷ 0 ∷ 0 ∷ []);
  suffix =
      record { name = abc_d; offset = 12 }
      ∷ record { name = b'd' ∷ []; offset = 16 }
      ∷ record { name = e_d; offset = 19 }
      ∷ [];
}

encode_first : encode_name nothing 12 (some abc_d) ≡ ok (one_name, some 19)
unfolding encode_name name_labels find_suffix add_suffix split_dot enc_put write_at splice same_text
encode_first = refl

encode_second : encode_name one_name 19 (some e_d) ≡ ok (two_names, some 23)
unfolding encode_name name_labels find_suffix add_suffix split_dot enc_put write_at splice same_text
encode_second = refl

letters : (a : ℕ) → a ≢ b'.' → IsLabel (a ∷ [])
letters a h = record { ne_nil = λ e. cc; short = omega arith; no_dot = (h, tt) }

abc_d-IsDomain : IsDomain abc_d
abc_d-IsDomain =
    dotted (b'a' ∷ b'b' ∷ b'c' ∷ [])
      (record {
        ne_nil = λ e. cc;
        short = omega arith;
        no_dot = (omega arith, (omega arith, (omega arith, tt)));
      })
      (last (letters b'd' (omega arith))) (λ e. cc) refl

e_d-IsDomain : IsDomain e_d
e_d-IsDomain =
    dotted (b'E' ∷ []) (letters b'E' (omega arith)) (last (letters b'D' (omega arith))) (λ e. cc)
      refl

first_table : All (IsValid one_name.pkt_buf 19 1) one_name.suffix
first_table =
    encode_name-IsValid 0 nothing one_name 12 19 abc_d abc_d-IsDomain (omega arith) (omega arith)
      (omega arith) tt encode_first

first-Usable : All (Usable one_name.pkt_buf 19 1) one_name.suffix
first-Usable = let (v, (w, _)) = first_table in (λ _. v, (λ _. w, tt))

encode_name-NameAt_example :
    (enc' : Enc) × (wptr' jumps : ℕ) × (text : Bytes) × (encode_name one_name 19 (some e_d)
      ≡ ok (enc', some wptr'))
    × NameAt (prefix enc'.pkt_buf wptr') 19 wptr' jumps text
    × (same_text text e_d ≡ true)
    × (jumps ≤ 1 + 1)
    × (wptr' ≤ 19 + length e_d + 2)
encode_name-NameAt_example =
    encode_name-NameAt 1 one_name 19 e_d e_d-IsDomain (omega arith) (omega arith) (omega arith)
      first-Usable

prefix_whole : (buf : Bytes) (n : ℕ) → Extends (prefix buf n) (get_elem? buf)
prefix_whole buf n i b e = ground arith

abbrev are_bytes : Bytes → Bool
are_bytes [] = true
are_bytes (b ∷ bs) = ltb b 256 && are_bytes bs

are_bytes_sound : (bs : Bytes) → are_bytes bs ≡ true → All IsByte bs
are_bytes_sound [] h = tt
are_bytes_sound (b ∷ bs) h =
    let low : ltb b 256 ≡ true = ground arith in (ground arith, are_bytes_sound bs (ground arith))

two_bytes : All IsByte two_names.pkt_buf
two_bytes = are_bytes_sound two_names.pkt_buf refl

decode_name-encode_name_example :
    (text : Bytes) × (decode_name two_names.pkt_buf true 254 19
      ≡ ok (named 23 (text ++ 0 ∷ []) (length text + 1)))
    × (same_text text e_d ≡ true)
decode_name-encode_name_example =
    decode_name-encode_name 1 one_name two_names 19 23 e_d two_names.pkt_buf 254 e_d-IsDomain
      (omega arith) (omega arith) (omega arith) first-Usable (omega arith) encode_second two_bytes
      (prefix_whole two_names.pkt_buf 23) (omega arith)
