-- ===== src/Slice/Trim.antt =====
-- What `slice_ltrim`, `slice_rtrim` and `slice_trim` of src/str_util.h leave.
use c_dns_pkt.Prelude.{◌≡◌, true, ◌++◌, All}
use c_dns_pkt.Mem.{Bytes}
use c_dns_pkt.Slice.{is_white, slice_ltrim, slice_rtrim}

abbrev pub AllWhite : Bytes → Type 0
AllWhite str = All (λ c. is_white c ≡ true) str

-- The rest of a slice and its trimmed form, one character longer.
abbrev Trimmed : Bytes → Bytes → Type 0
Trimmed str r = ((w : Bytes) × (str ≡ r ++ w) × AllWhite w) × (slice_rtrim r ≡ r)

-- What trimming must give: the slice without white space at its ends, and nothing else taken away.
pub record TrimOf (str t : Bytes) : Type 0 where
  pub before : Bytes
  pub behind : Bytes
  pub whole : str ≡ before ++ (t ++ behind)
  pub before_white : AllWhite before
  pub behind_white : AllWhite behind
  pub left : slice_ltrim t ≡ t
  pub right : slice_rtrim t ≡ t
