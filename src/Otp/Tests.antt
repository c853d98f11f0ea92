-- ===== src/Otp/Tests.antt =====
-- A code for target 9, issued and tried.
use nivra.Prelude.{◌+◌, ◌-◌, ◌≤◌, ◌≡◌, refl, true, false, none, some, List, [], ◌∷◌, any, arith}
use nivra.Prelude.Int.{pos, ◌+ℤ◌}
use nivra.Otp.Challenges.{
  Config, Challenge, VerifyParams, Answers, verify, matches, issue, replace_open, is_current, fresh,
  ttl_ms,
}
use nivra.Otp.Guessing.{Call, guesses, accepted, run_bounds}
use nivra.Otp.Issuing.{issue-current}

abbrev config : Config
config = record { hash = λ target code. target + code; bypass = none }

abbrev old : Challenge
old = fresh config 9 1 none 1111 (pos 500)

abbrev right : VerifyParams
right = record { purpose = 1; user = none; code = 1111 }

abbrev wrong : VerifyParams
wrong = record { purpose = 1; user = none; code = 2222 }

abbrev answers : Answers
answers = record { locked = false; cooling = false; target_requests = 1; ip_requests = some 3 }

abbrev calls : List Call
calls =
    record { params = wrong; locked = false; at = pos 10 }
    ∷ record { params = right; locked = false; at = pos 20 }
    ∷ record { params = right; locked = false; at = pos 30 }
    ∷ []

run_bounds_example : (guesses config old calls ≤ 5 - 0) × (accepted config old calls ≤ 1)
run_bounds_example = run_bounds config old calls

-- The third call comes after the code was used.
two_guesses : guesses config old calls ≡ 2
unfolding guesses verify matches
two_guesses = refl

-- The second of the three calls is the one that is accepted.
one_accepted : accepted config old calls ≡ 1
unfolding accepted verify matches
one_accepted = refl

abbrev issued : Challenge
issued = fresh config 9 1 none 3333 (pos 100 +ℤ pos ttl_ms)

issue-current_example :
    (rest : List Challenge) × (issued ∷ replace_open 9 1 (pos 100) (old ∷ []) ≡ issued ∷ rest)
    × (any (is_current 9 1 (pos 200)) rest ≡ false)
unfolding issue
issue-current_example =
    issue-current config (old ∷ []) (issued ∷ replace_open 9 1 (pos 100) (old ∷ [])) 9 1 none 3333
      answers true (pos 100) (pos 101) (pos 200) issued refl (omega arith)
