-- ===== src/Otp/Challenges.antt =====
-- `OtpService`: issuing and verifying codes, over the table of challenges. What Redis answers (the
-- lock, the cooldown, the counters) and whether the code could be delivered are arguments, and so are
-- the keyed hash and the code for development; a code, a target and a purpose are numbers.
use nivra.Prelude.{
  ℕ, ◌+◌, ◌-◌, ◌*◌, Bool, true, false, not, ◌&&◌, ◌||◌, Option, none, some, is_some, List, [], ◌∷◌,
  Result, ok, err, leb, ltb, ◌==◌, if◌then◌else◌,
}
use nivra.Prelude.Int.{pos, ◌+ℤ◌, leb_ℤ, ltb_ℤ}
use nivra.Time.{Instant}

pub record Challenge : Type 0 where
  pub purpose : ℕ
  pub target : ℕ
  pub user : Option ℕ
  pub code_hash : ℕ
  pub attempts : ℕ
  pub max_attempts : ℕ
  pub expires_at : Instant
  pub consumed_at : Option Instant

pub data OtpError : Type 0 where
  invalid : Option ℕ → OtpError
  rate_limited expired too_many_attempts cooldown delivery_failed : OtpError

-- The keyed hash of a target and a code, and the code that is always right in development.
pub record Config : Type 0 where
  pub hash : ℕ → ℕ → ℕ
  pub bypass : Option ℕ

pub record VerifyParams : Type 0 where
  pub purpose : ℕ
  pub user : Option ℕ
  pub code : ℕ

abbrev pub max_tries : ℕ
max_tries = 5

abbrev pub ttl_ms : ℕ
ttl_ms = 5 * 60 * 1000

abbrev pub requests_per_target : ℕ
requests_per_target = 5

abbrev pub requests_per_ip : ℕ
requests_per_ip = 20

abbrev pub failures_per_target : ℕ
failures_per_target = 10

abbrev pub same_user : Option ℕ → Option ℕ → Bool
same_user none owner = true
same_user (some u) none = false
same_user (some u) (some v) = v == u

-- `challenge.purpose !== purpose || (userId !== undefined && challenge.userId !== userId)`.
abbrev pub is_other : Challenge → VerifyParams → Bool
is_other c p = not (c.purpose == p.purpose) || not (same_user p.user c.user)

abbrev pub is_bypass : Option ℕ → ℕ → Bool
is_bypass none code = false
is_bypass (some b) code = code == b

unfoldable pub matches : Config → Challenge → ℕ → Bool
matches cfg c code = is_bypass cfg.bypass code || cfg.hash c.target code == c.code_hash

-- `consumedAt || expiresAt <= now`.
abbrev pub is_over : Challenge → Instant → Bool
is_over c now = is_some c.consumed_at || leb_ℤ c.expires_at now

abbrev pub count : Challenge → Challenge
count c = record c { attempts = c.attempts + 1 }

abbrev pub consume : Challenge → Instant → Challenge
consume c now = record c { consumed_at = some now }

-- The answer to a wrong code: the attempts that are left, or none.
abbrev wrong : Challenge → OtpError
wrong c =
    if leb c.max_attempts (c.attempts + 1)
    then too_many_attempts
    else invalid (some (c.max_attempts - (c.attempts + 1)))

-- `verify` on the challenge that was found: the row it leaves, and the consumed challenge or the
-- error. `locked` is whether Redis holds a lock of the target.
unfoldable pub verify :
    Config → Challenge → VerifyParams → Bool → Instant → Challenge × Result OtpError Challenge
unfolding matches
verify cfg c p locked now =
    if is_other c p
    then (c, err (invalid none))
    else if locked
    then (c, err rate_limited)
    else if is_over c now
    then (c, err expired)
    else if not (ltb c.attempts c.max_attempts)
    then (c, err too_many_attempts)
    else if not (matches cfg c p.code)
    then (count c, err (wrong c))
    else (consume (count c) now, ok c)

-- `recordFailure`, given the count that Redis answers: whether the target is locked for an hour.
abbrev pub locks : ℕ → Bool
locks failures = leb failures_per_target failures

-- What Redis answers to `issue`: a lock of the target, a cooldown still running, and the requests in
-- this hour for the target and, if there is an address, for it.
pub record Answers : Type 0 where
  pub locked : Bool
  pub cooling : Bool
  pub target_requests : ℕ
  pub ip_requests : Option ℕ

abbrev over_ip : Option ℕ → Bool
over_ip none = false
over_ip (some n) = ltb requests_per_ip n

abbrev same_key : ℕ → ℕ → Challenge → Bool
same_key target purpose c = c.target == target && c.purpose == purpose

abbrev pub is_open_at : Instant → Challenge → Bool
is_open_at now c = not (is_some c.consumed_at) && ltb_ℤ now c.expires_at

abbrev pub is_current : ℕ → ℕ → Instant → Challenge → Bool
is_current target purpose now c = same_key target purpose c && is_open_at now c

-- A new code replaces any open one of the target and purpose.
unfoldable pub replace_open : ℕ → ℕ → Instant → List Challenge → List Challenge
replace_open target purpose now [] = []
replace_open target purpose now (c ∷ cs) =
    let rest = replace_open target purpose now cs in
    if is_current target purpose now c then record c { expires_at = now } ∷ rest else c ∷ rest

abbrev pub fresh : Config → ℕ → ℕ → Option ℕ → ℕ → Instant → Challenge
fresh cfg target purpose user code expires_at = record {
  purpose = purpose;
  target = target;
  user = user;
  code_hash = cfg.hash target code;
  attempts = 0;
  max_attempts = max_tries;
  expires_at = expires_at;
  consumed_at = none;
}

-- `issue` of a code at `now`; a code that was not delivered expires at `later`.
unfoldable pub issue :
    Config
    → List Challenge
    → ℕ
    → ℕ
    → Option ℕ
    → ℕ
    → Answers
    → Bool
    → Instant
    → Instant
    → List Challenge × Result OtpError Challenge
unfolding replace_open
issue cfg cs target purpose user code a delivered now later =
    if a.locked
    then (cs, err rate_limited)
    else if a.cooling
    then (cs, err cooldown)
    else if ltb requests_per_target a.target_requests || over_ip a.ip_requests
    then (cs, err rate_limited)
    else (let rest = replace_open target purpose now cs in
        if delivered
        then (
          fresh cfg target purpose user code (now +ℤ pos ttl_ms) ∷ rest,
          ok (fresh cfg target purpose user code (now +ℤ pos ttl_ms)),
        )
        else (fresh cfg target purpose user code later ∷ rest, err delivery_failed))
