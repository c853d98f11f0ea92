-- ===== src/Rentals/Lockout.antt =====
-- How many codes can be tried on `checkCode` of rentals/handover.service.ts, one call at a time.
use nivra.Prelude.{
  ℕ, ◌+◌, ◌*◌, ◌-◌, ◌≤◌, ◌≢◌, Bool, true, false, List, [], ◌∷◌, length, filter, Result, err, arith,
  All,
}
use nivra.Rentals.Handover.{RentalError, code_invalid, check_code}

-- What happens to the counter of one booking and stage: a code is tried, or the key expires.
pub data Try : Type 0 where
  expires : Try
  tried : ℕ → Try

-- The answers to the codes that are tried; a counter whose key expired reads 0.
unfoldable pub answers : ℕ → ℕ → List Try → List (Result RentalError (Unit {0}))
unfolding check_code
answers expected fails [] = []
answers expected fails (expires ∷ ts) = answers expected 0 ts
answers expected fails (tried c ∷ ts) =
    let (fails', r) = check_code expected fails c in r ∷ answers expected fails' ts

-- A code that was compared, and was wrong.
abbrev pub is_wrong : Result RentalError (Unit {0}) → Bool
is_wrong (err (code_invalid n)) = true
is_wrong r = false

abbrev pub is_expiry : Try → Bool
is_expiry expires = true
is_expiry (tried c) = false

abbrev pub IsWrongTry : ℕ → Try → Type 0
IsWrongTry expected expires = Unit
IsWrongTry expected (tried c) = c ≢ expected

-- While no code that is tried is right, at most five of them are compared for each time that the
-- counter starts anew, and at first at most the tries that are left.
pub codes_locked :
    (expected fails : ℕ) (ts : List Try)
    → All (IsWrongTry expected) ts
    → length (filter is_wrong (answers expected fails ts))
      ≤ (5 - fails) + 5 * length (filter is_expiry ts)
unfolding answers check_code
codes_locked expected fails [] wrong = omega arith
codes_locked expected fails (expires ∷ ts) wrong = omega (arith, codes_locked expected 0 ts wrong.1)
codes_locked expected fails (tried c ∷ ts) wrong =
    ground
      (arith, codes_locked expected fails ts wrong.1, codes_locked expected (fails + 1) ts wrong.1)
