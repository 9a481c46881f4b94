-- ===== src/Slice/Unbracket.antt =====
-- `slice_unbracket` of src/str_util.h on a bracketed slice.
use c_dns_pkt.Prelude.{
  ℕ, suc, ◌+◌, ◌-◌, ◌≡◌, ◌≢◌, refl, true, false, [], ◌∷◌, ◌++◌, length, get_elem?, ok, fault, ◌==◌,
  arith,
}
use c_dns_pkt.Mem.{Bytes}
use c_dns_pkt.Slice.{slice_unbracket}

behind_end :
    (inner more : Bytes) (right : ℕ)
    → get_elem? (inner ++ right ∷ more) (length inner + 1) ≡ get_elem? more 0
behind_end [] more right = refl
behind_end (c ∷ inner) more right =
    let next : suc (length inner) + 1 ≡ suc (length inner + 1) = omega arith in
    rw next (behind_end inner more right)

-- Of a slice that begins with the left bracket and ends with the right one, the call strips the left
-- bracket and not the right one, if the byte behind the slice is no right bracket; if the buffer ends
-- with the slice, the call reads outside of it.
pub slice_unbracket-behind :
    (inner more : Bytes) (left right b : ℕ)
    → b ≢ right
    → (slice_unbracket (left ∷ (inner ++ right ∷ b ∷ more)) (length inner + 2) left right
        ≡ ok (inner ++ right ∷ b ∷ more, length inner + 1))
      × (slice_unbracket (left ∷ (inner ++ right ∷ [])) (length inner + 2) left right ≡ fault)
unfolding slice_unbracket
slice_unbracket-behind inner more left right b ne =
    let some_len : (length inner + 2 == 0) ≡ false = ground arith in
    let self : (left == left) ≡ true = ground arith in
    let other : (b == right) ≡ false = ground arith in
    let len : length inner + 2 - 1 ≡ length inner + 1 = omega arith in
    (
      rw (some_len, self, len, behind_end inner (b ∷ more) right, other) refl,
      rw (some_len, self, len, behind_end inner [] right) refl,
    )
