-- ===== src/Flow.antt =====
-- How a piece of C code ends that runs on a state and may return early: it goes on with a value, or
-- its function returns a code.
use c_dns_pkt.Prelude.{Exec, ok, fault, stuck, ℤ}

pub data Flow (S A : Type 0) : Type 0 where
  next : S → A → Flow S A
  leave : S → ℤ → Flow S A

-- What follows a piece of code.
abbrev pub and_then :
    {S A B : Type 0} → (A → S → Exec (Flow S B)) → Exec (Flow S A) → Exec (Flow S B)
and_then f (ok (next w a)) = f a w
and_then f (ok (leave w rc)) = ok (leave w rc)
and_then f fault = fault
and_then f stuck = stuck

-- The call of a function, for its code.
abbrev pub ended : {S : Type 0} → Exec (Flow S ℤ) → Exec (Flow S ℤ)
ended (ok (next w rc)) = ok (next w rc)
ended (ok (leave w rc)) = ok (next w rc)
ended fault = fault
ended stuck = stuck
