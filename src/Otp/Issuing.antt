-- ===== src/Otp/Issuing.antt =====
-- A new code and the codes before it.
use nivra.Prelude.{
  ℕ, ◌≡◌, refl, inl, inr, Bool, false, Bool-cases, Option, List, [], ◌∷◌, any, ok, err, arith,
}
use nivra.Prelude.Int.{◌≤ℤ◌}
use nivra.Time.{Instant}
use nivra.Otp.Challenges.{
  Config, Challenge, delivery_failed, Answers, issue, replace_open, is_current,
}

-- What was open before is not open from then on.
none_open :
    (target purpose : ℕ) (now at : Instant) (cs : List Challenge)
    → now ≤ℤ at
    → any (is_current target purpose at) (replace_open target purpose now cs) ≡ false
unfolding replace_open
none_open target purpose now at [] h = refl
none_open target purpose now at (c ∷ cs) h = elim (Bool-cases (is_current target purpose now c)) [
  | inl usable ↦ rw usable (ground (arith, none_open target purpose now at cs h))
  | inr shut ↦ rw shut (ground (arith, none_open target purpose now at cs h))
]

-- Once a code is issued and delivered, it is the only one of its target and purpose that can be used
-- from then on.
pub issue-current :
    (cfg : Config) (cs cs' : List Challenge) (target purpose : ℕ) (user : Option ℕ) (code : ℕ)
    (a : Answers) (delivered : Bool) (now later at : Instant) (c : Challenge)
    → issue cfg cs target purpose user code a delivered now later ≡ (cs', ok c)
    → now ≤ℤ at
    → (rest : List Challenge) × (cs' ≡ c ∷ rest) × (any (is_current target purpose at) rest ≡ false)
unfolding issue
issue-current cfg cs cs' target purpose user code a delivered now later at c h k =
    (replace_open target purpose now cs, ground arith, none_open target purpose now at cs k)

-- A code that could not be delivered leaves no code of its target and purpose that can be used.
issue-undelivered :
    (cfg : Config) (cs cs' : List Challenge) (target purpose : ℕ) (user : Option ℕ) (code : ℕ)
    (a : Answers) (delivered : Bool) (now later at : Instant)
    → issue cfg cs target purpose user code a delivered now later ≡ (cs', err delivery_failed)
    → now ≤ℤ at
    → later ≤ℤ at
    → any (is_current target purpose at) cs' ≡ false
unfolding issue
issue-undelivered cfg cs cs' target purpose user code a delivered now later at h k l =
    let before = none_open target purpose now at cs k in ground arith
