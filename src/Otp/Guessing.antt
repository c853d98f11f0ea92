-- ===== src/Otp/Guessing.antt =====
-- How often a code can be guessed, and when it is right.
use nivra.Prelude.{
  ℕ, ◌+◌, ◌-◌, ◌≤◌, ◌<◌, ◌≡◌, ◌↔◌, Bool, true, false, none, some, is_some, List, [], ◌∷◌, Result,
  ok, err, arith, if◌then◌else◌,
}
use nivra.Prelude.Int.{◌<ℤ◌}
use nivra.Time.{Instant}
use nivra.Otp.Challenges.{Config, Challenge, VerifyParams, OtpError, verify, matches, is_other}

-- A call of `verify`: its parameters, Redis's answer on the lock, and the time.
pub record Call : Type 0 where
  pub params : VerifyParams
  pub locked : Bool
  pub at : Instant

abbrev is_ok : Result OtpError Challenge → ℕ
is_ok (ok c) = 1
is_ok (err e) = 0

-- The row after a sequence of calls, and how many of them were accepted.
unfoldable pub run : Config → Challenge → List Call → Challenge
unfolding verify
run cfg c [] = c
run cfg c (k ∷ ks) = run cfg (verify cfg c k.params k.locked k.at).0 ks

unfoldable pub accepted : Config → Challenge → List Call → ℕ
unfolding verify
accepted cfg c [] = 0
accepted cfg c (k ∷ ks) =
    is_ok (verify cfg c k.params k.locked k.at).1
    + accepted cfg (verify cfg c k.params k.locked k.at).0 ks

-- The configuration in which `code` is right: what a call would be answered if its code were.
abbrev as_right : Config → ℕ → Config
as_right cfg code = record cfg { bypass = some code }

-- How many of the calls are guesses: those whose code decides, since they would be accepted with the
-- right one.
unfoldable pub guesses : Config → Challenge → List Call → ℕ
unfolding verify
guesses cfg c [] = 0
guesses cfg c (k ∷ ks) =
    is_ok (verify (as_right cfg k.params.code) c k.params k.locked k.at).1
    + guesses cfg (verify cfg c k.params k.locked k.at).0 ks

used : Challenge → ℕ
used c = if is_some c.consumed_at then 1 else 0

verify_step :
    (cfg : Config) (c : Challenge) (p : VerifyParams) (locked : Bool) (now : Instant)
    → let (after, result) = verify cfg c p locked now in
      (used after ≡ used c + is_ok result) × (after.max_attempts ≡ c.max_attempts)
unfolding verify used
verify_step cfg c p locked now = (ground arith, ground arith)

-- A code is accepted exactly for the purpose and person it was issued for, while no lock of the
-- target stands, once, before it expires, with tries left, and if it is the right one.
verify_iff :
    (cfg : Config) (c : Challenge) (p : VerifyParams) (locked : Bool) (now : Instant)
    → ((verify cfg c p locked now).1 ≡ ok c) ↔ (
        (is_other c p ≡ false)
        × (locked ≡ false)
        × (c.consumed_at ≡ none)
        × (now <ℤ c.expires_at)
        × (c.attempts < c.max_attempts)
        × (matches cfg c p.code ≡ true))
unfolding verify
verify_iff cfg c p locked now = (λ h. ground arith, λ h. ground arith)

used-run :
    (cfg : Config) (c : Challenge) (ks : List Call)
    → used (run cfg c ks) ≡ used c + accepted cfg c ks
unfolding run accepted
used-run cfg c [] = omega arith
used-run cfg c (k ∷ ks) = omega (
  arith,
  used-run cfg (verify cfg c k.params k.locked k.at).0 ks,
  (verify_step cfg c k.params k.locked k.at).0,
)

guess_counted :
    (cfg : Config) (c : Challenge) (p : VerifyParams) (locked : Bool) (now : Instant)
    → is_ok (verify (as_right cfg p.code) c p locked now).1
        + (c.max_attempts - (verify cfg c p locked now).0.attempts)
      ≤ c.max_attempts - c.attempts
unfolding verify matches
guess_counted cfg c p locked now = ground arith

guesses-le :
    (cfg : Config) (c : Challenge) (ks : List Call) → guesses cfg c ks ≤ c.max_attempts - c.attempts
unfolding guesses
guesses-le cfg c [] = omega arith
guesses-le cfg c (k ∷ ks) = omega (
  arith,
  guesses-le cfg (verify cfg c k.params k.locked k.at).0 ks,
  guess_counted cfg c k.params k.locked k.at,
  (verify_step cfg c k.params k.locked k.at).1,
)

used_le : (c : Challenge) → used c ≤ 1
unfolding used
used_le c = ground arith

-- Whatever calls are made on a challenge, in any order and at any times: no more of them than the
-- tries that are left are guesses, that is, would be accepted if their code were the right one; and
-- at most one is accepted.
pub run_bounds :
    (cfg : Config) (c : Challenge) (ks : List Call)
    → (guesses cfg c ks ≤ c.max_attempts - c.attempts) × (accepted cfg c ks ≤ 1)
run_bounds cfg c ks =
    (guesses-le cfg c ks, omega (arith, used-run cfg c ks, used_le (run cfg c ks)))
