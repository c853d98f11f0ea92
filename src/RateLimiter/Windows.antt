-- ===== src/RateLimiter/Windows.antt =====
-- `RateLimiter` of apps/api/src/redis/rate-limiter.ts. Redis is an argument: its state, the answer to
-- INCR and TTL of a key in one transaction, and EXPIRE; a limit's texts and code are left out.
use nivra.Prelude.{ℕ, Bool, Option, none, some, Result, ok, err, ltb, leb, if◌then◌else◌}
use nivra.Prelude.Int.{ℤ, pos, ◌-ℤ◌, ltb_ℤ}

pub record Redis (S : Type 0) : Type 0 where
  pub incr_ttl : ℕ → S → S × Option (ℕ × ℤ)
  pub expire : ℕ → ℕ → S → S

pub record RateLimit : Type 0 where
  pub key : ℕ
  pub limit : ℕ
  pub window : ℕ

-- `results?.[0]?.[1] ?? 0` and `results?.[1]?.[1] ?? -1`.
abbrev answered : Option (ℕ × ℤ) → ℕ × ℤ
answered none = (0, pos 0 -ℤ pos 1)
answered (some x) = x

unfoldable pub count : {S : Type 0} → Redis S → ℕ → ℕ → S → S × ℕ × ℤ
count redis key window s =
    let (s', reply) = redis.incr_ttl key s in
    let (n, ttl) = answered reply in
    (if ltb_ℤ ttl (pos 0) then redis.expire key window s' else s', n, ttl)

-- The error is the number of seconds to wait.
unfoldable pub hit : {S : Type 0} → Redis S → RateLimit → S → S × Result ℤ (Unit {0})
unfolding count
hit redis l s =
    let (s', n, ttl) = count redis l.key l.window s in
    (s', if ltb l.limit n then err (if ltb_ℤ (pos 0) ttl then ttl else pos l.window) else ok tt)

-- `tryHit`.
unfoldable pub try_hit : {S : Type 0} → Redis S → RateLimit → S → S × Bool
unfolding count
try_hit redis l s = let (s', n, ttl) = count redis l.key l.window s in (s', leb n l.limit)
