-- ===== src/Tests/Strings.antt =====
-- String buffers and slices on concrete inputs.
use c_dns_pkt.Prelude.{
  ◌≤◌, get_elem?, take, some, ℕ, ◌≡◌, refl, List, [], ◌∷◌, length, ◌++◌, ◌%◌, ◌^◌, fault, Option,
  none, some, ok, arith,
}
use c_dns_pkt.Mem.{Bytes, write_at, splice}
use c_dns_pkt.Sbuf.{
  Sbuf, sbuf_reset, sbuf_pos, sbuf_rem, sbuf_mksp, sbuf_putm, sbuf_putcm, sbuf_puticm, sbuf_puts,
}
use c_dns_pkt.Sbuf.Text.{text, InBounds}
use c_dns_pkt.Sbuf.Refines.{
  Call, reset, putm, puticm, puts, run_calls, spec_calls, run_calls-spec_calls,
}
use c_dns_pkt.Slice.{
  slice_unbracket, slice_splitch, slice_rsplit, slice_splitset, span, slice_trim, slice_ltrim,
  slice_rtrim, str_tou32, tou32_loop,
}
use c_dns_pkt.Slice.Split.{
  SplitAt, slice_splitch-SplitAt, RSplitAt, slice_rsplit-RSplitAt, Token, slice_splitset-Token,
}
use c_dns_pkt.Ip4.{ip4_str_encode, ip4_str_decode, ip4_loop}
use c_dns_pkt.Ip4.RoundTrip.{ip4_str_decode-ip4_str_encode}
use c_dns_pkt.Slice.Unbracket.{slice_unbracket-behind}
use c_dns_pkt.Slice.Number.{number_of, numerals, str_tou32-number_of}

abbrev six : Sbuf
six = record { mem = 9 ∷ 9 ∷ 9 ∷ 9 ∷ 9 ∷ 9 ∷ []; ptr = 2 }

-- The fourth call has no room.
abbrev calls : List Call
calls =
    reset
    ∷ puticm b' ' (b'R' ∷ b'D' ∷ [])
    ∷ puticm b' ' (b'T' ∷ b'C' ∷ [])
    ∷ puts (some (b'x' ∷ b'y' ∷ []))
    ∷ puts none
    ∷ putm (b'z' ∷ [])
    ∷ []

calls_run :
    run_calls calls six
    ≡ ok (
      record { mem = b'R' ∷ b'D' ∷ b' ' ∷ b'T' ∷ b'C' ∷ b'z' ∷ []; ptr = 6 },
      0 ∷ 2 ∷ 3 ∷ 0 ∷ 0 ∷ 1 ∷ [],
    )
unfolding run_calls sbuf_reset sbuf_pos sbuf_rem sbuf_mksp sbuf_putm sbuf_putcm sbuf_puticm
    sbuf_puts write_at splice
calls_run = refl

run_calls-spec_calls_example :
    (buf' : Sbuf) × (ns : List ℕ) × (run_calls calls six ≡ ok (buf', ns))
    × InBounds buf'
    × (◌≡◌ {A = Bytes × List ℕ} (text buf', ns) (spec_calls (length six.mem) calls (text six)))
run_calls-spec_calls_example = run_calls-spec_calls calls six (omega arith)

-- `a=b=`
abbrev pair : Bytes
pair = b'a' ∷ b'=' ∷ b'b' ∷ b'=' ∷ []

slice_splitch-SplitAt_example :
    (tok : Bytes) × (rest : Option Bytes) × (slice_splitch (some pair) b'=' ≡ (some tok, rest))
    × SplitAt b'=' pair tok rest
slice_splitch-SplitAt_example = slice_splitch-SplitAt pair b'='

slice_rsplit-RSplitAt_example :
    RSplitAt b'=' pair (slice_rsplit (some pair) b'=').0 (slice_rsplit (some pair) b'=').1
slice_rsplit-RSplitAt_example = slice_rsplit-RSplitAt pair b'='

-- ` ` and the tab
abbrev blanks : Bytes
blanks = b' ' ∷ 9 ∷ []

abbrev words : Bytes
words = b'a' ∷ b' ' ∷ 9 ∷ b'b' ∷ b' ' ∷ []

splitset_run : slice_splitset words blanks ≡ (b'a' ∷ [], b'b' ∷ b' ' ∷ [])
unfolding slice_splitset span
splitset_run = refl

slice_splitset-Token_example :
    Token blanks words (slice_splitset words blanks).0 (slice_splitset words blanks).1
slice_splitset-Token_example = slice_splitset-Token words blanks

trim_run : slice_trim (b' ' ∷ words) ≡ b'a' ∷ b' ' ∷ 9 ∷ b'b' ∷ []
unfolding slice_trim slice_ltrim slice_rtrim
trim_run = refl

-- 2^32 + 5 is read as 5.
wrapped : str_tou32 (b'4' ∷ b'2' ∷ b'9' ∷ b'4' ∷ b'9' ∷ b'6' ∷ b'7' ∷ b'3' ∷ b'0' ∷ b'1' ∷ []) ≡ 5
unfolding str_tou32 tou32_loop
wrapped = refl

str_tou32-number_of_example :
    str_tou32 (numerals (1 ∷ 2 ∷ []) ++ (b'x' ∷ [])) ≡ number_of 0 (1 ∷ 2 ∷ []) % 2 ^ 32
str_tou32-number_of_example =
    str_tou32-number_of (1 ∷ 2 ∷ []) (b'x' ∷ []) (omega arith, (omega arith, tt)) refl

-- `[a]` with a zero byte behind it.
slice_unbracket-behind_example :
    (slice_unbracket (b'[' ∷ b'a' ∷ b']' ∷ 0 ∷ []) 3 b'[' b']' ≡ ok (b'a' ∷ b']' ∷ 0 ∷ [], 2))
    × (slice_unbracket (b'[' ∷ b'a' ∷ b']' ∷ []) 3 b'[' b']' ≡ fault)
slice_unbracket-behind_example = slice_unbracket-behind (b'a' ∷ []) [] b'[' b']' 0 (omega arith)

abbrev twenty : Bytes
twenty = 9 ∷ 9 ∷ 9 ∷ 9 ∷ 9 ∷ 9 ∷ 9 ∷ 9 ∷ 9 ∷ 9 ∷ 9 ∷ 9 ∷ 9 ∷ 9 ∷ 9 ∷ 9 ∷ 9 ∷ 9 ∷ 9 ∷ 9 ∷ []

ip4_str_decode-ip4_str_encode_example :
    (str' : Bytes) × (n : ℕ) × (ip4_str_encode 192 0 2 99 twenty 20 ≡ ok (str', n))
    × (7 ≤ n)
    × (n ≤ 15)
    × (get_elem? str' n ≡ some 0)
    × (ip4_str_decode (take n str') ≡ (192 ∷ 0 ∷ 2 ∷ 99 ∷ [], n))
ip4_str_decode-ip4_str_encode_example =
    ip4_str_decode-ip4_str_encode 192 0 2 99 twenty 20 (omega arith) (omega arith) (omega arith)
      (omega arith) (omega arith) (omega arith)

-- A fourth digit gives the value of -1 as a size_t.
four_digits : ip4_str_decode (b'1' ∷ b'0' ∷ b'0' ∷ b'0' ∷ []) ≡ ([], 0xffffffffffffffff)
unfolding ip4_str_decode ip4_loop
four_digits = refl
