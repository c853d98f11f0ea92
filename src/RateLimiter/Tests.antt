-- ===== src/RateLimiter/Tests.antt =====
-- A Redis that holds one counter, whose key is given an expiry at its first call.
use nivra.Prelude.{ℕ, ◌+◌, ◌≡◌, some, refl, err, ◌==◌, if◌then◌else◌}
use nivra.Prelude.Int.{pos, ◌-ℤ◌}
use nivra.RateLimiter.Windows.{Redis, RateLimit, hit, try_hit}
use nivra.RateLimiter.Allowed.{Counts, passes, allowed, allowed_exact}

abbrev one_counter : Redis ℕ
one_counter = record {
  incr_ttl = λ k s. (s + 1, some (s + 1, if s == 0 then pos 0 -ℤ pos 1 else pos 60));
  expire = λ k w s. s;
}

one_counter-Counts : Counts one_counter 4 (λ s. s)
one_counter-Counts = record {
  incr_counts = λ s. (if s == 0 then pos 0 -ℤ pos 1 else pos 60, refl, refl);
  expire_keeps = λ w s. refl;
}

abbrev two_a_minute : RateLimit
two_a_minute = record { key = 4; limit = 2; window = 60 }

third_waits : (hit one_counter two_a_minute 2).1 ≡ err (pos 60)
unfolding hit
third_waits = refl

allowed_exact_example :
    (allowed one_counter two_a_minute 5 0 ≡ 2)
    × (passes (hit one_counter two_a_minute 2).1 ≡ (try_hit one_counter two_a_minute 2).1)
allowed_exact_example =
    allowed_exact one_counter two_a_minute (λ s. s) 5 0 2 one_counter-Counts refl
