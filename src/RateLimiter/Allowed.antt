-- ===== src/RateLimiter/Allowed.antt =====
-- How many calls one window of the limiter lets through.
use nivra.Prelude.{
  ℕ, ◌+◌, ◌-◌, ◌≡◌, ◌∙◌, zero, suc, Bool, true, false, some, min, Result, ok, err, ltb, leb, arith,
  refl, if◌then◌else◌,
}
use nivra.Prelude.Int.{ℤ, pos, ltb_ℤ}
use nivra.RateLimiter.Windows.{Redis, RateLimit, count, hit, try_hit}

-- What INCR does to a key that does not expire meanwhile, and that EXPIRE keeps its value.
pub record Counts {S : Type 0} (redis : Redis S) (key : ℕ) (value : S → ℕ) : Type 0 where
  pub incr_counts :
      (s : S)
      → (ttl : ℤ) × ((redis.incr_ttl key s).1 ≡ some (value s + 1, ttl))
        × (value (redis.incr_ttl key s).0 ≡ value s + 1)
  pub expire_keeps : (window : ℕ) (s : S) → value (redis.expire key window s) ≡ value s

abbrev pub passes : Result ℤ (Unit {0}) → Bool
passes (ok u) = true
passes (err e) = false

-- How many of n calls in a row succeed.
unfoldable pub allowed : {S : Type 0} → Redis S → RateLimit → ℕ → S → ℕ
unfolding hit
allowed redis l zero s = 0
allowed redis l (suc n) s =
    let (s', r) = hit redis l s in
    let rest = allowed redis l n s' in if passes r then suc rest else rest

if_value :
    {S : Type 0} (redis : Redis S) (l : RateLimit) (value : S → ℕ) (s : S) (b : Bool)
    → Counts redis l.key value
    → value (if b then redis.expire l.key l.window s else s) ≡ value s
if_value redis l value s true c = c.expire_keeps l.window s
if_value redis l value s false c = refl

passes_iff : (n limit : ℕ) (e : ℤ) → passes (if ltb limit n then err e else ok tt) ≡ leb n limit
passes_iff n limit e = ground arith

hit-passes :
    {S : Type 0} (redis : Redis S) (l : RateLimit) (s : S) (value : S → ℕ)
    → Counts redis l.key value
    → (value (hit redis l s).0 ≡ value s + 1)
      × (passes (hit redis l s).1 ≡ leb (value s + 1) l.limit)
      × ((try_hit redis l s).1 ≡ leb (value s + 1) l.limit)
unfolding hit try_hit count
hit-passes redis l s value c =
    let (ttl, e, v) = c.incr_counts s in
    let s' = (redis.incr_ttl l.key s).0 in
    rw e (
      if_value redis l value s' (ltb_ℤ ttl (pos 0)) c ∙ v,
      passes_iff (value s + 1) l.limit _,
      refl,
    )

allowed-from :
    {S : Type 0} (redis : Redis S) (l : RateLimit) (value : S → ℕ) (n : ℕ) (s : S)
    → Counts redis l.key value
    → allowed redis l n s ≡ min n (l.limit - value s)
unfolding allowed
allowed-from redis l value zero s c = ground arith
allowed-from redis l value (suc n) s c =
    let (counted, passed, tried) = hit-passes redis l s value c in
    let rest = allowed-from redis l value n (hit redis l s).0 c in
    rw (passed, rest, counted) (ground arith)

-- Of n calls for a key within one window, from its first, exactly the limit or all n of them pass,
-- whichever is less, and the next call throws if and only if tryHit would answer false in its place.
-- (Redis counts: INCR of a key that does not expire adds one and EXPIRE keeps the value.)
pub allowed_exact :
    {S : Type 0} (redis : Redis S) (l : RateLimit) (value : S → ℕ) (n : ℕ) (s next : S)
    → Counts redis l.key value
    → value s ≡ 0
    → (allowed redis l n s ≡ min n l.limit)
      × (passes (hit redis l next).1 ≡ (try_hit redis l next).1)
allowed_exact redis l value n s next c first =
    let (counted, passed, tried) = hit-passes redis l next value c in
    (allowed-from redis l value n s c ∙ rw first (ground arith), ground arith)
