-- ===== src/Credits/Referrals.antt =====
-- Redeeming, revoking and rewarding (`redeem`, `revoke`, `canRedeem` and `rewardReferrer` of
-- apps/api/src/modules/referrals/referrals.service.ts), without notifications and the audit log.
use nivra.Prelude.{
  ℕ, ◌*◌, Bool, true, false, not, ◌&&◌, ◌||◌, Option, none, some, List, [], ◌∷◌, any, find, filter,
  length, ltb, leb, ◌==◌, is_some, Result, ok, err, if◌then◌else◌,
}
use nivra.Prelude.Int.{ℤ, pos, ◌-ℤ◌, leb_ℤ, ltb_ℤ}
use nivra.Time.{Instant, day_ms}
use nivra.Credits.Entries.{
  Entries, entry, credit_balance, grant_referee, grant_referrer, revoke, referee_credit,
  referrer_credit, max_referrer_rewards, redeem_within_days,
}

-- One row for each invited person (`refereeId` is unique).
pub record Referral : Type 0 where
  pub referee : ℕ
  pub referrer : ℕ
  pub rewarded_at : Option Instant

pub record Store : Type 0 where
  pub entries : Entries
  pub referrals : List Referral

pub data RedeemError : Type 0 where
  rate_limited referral_not_allowed referral_code_invalid : RedeemError

-- What `canRedeem` reads of a user: the creation time, and how many bookings they made.
pub record Joined : Type 0 where
  pub created_at : Instant
  pub bookings : ℕ

abbrev pub refers : ℕ → Referral → Bool
refers u r = u == r.referee

unfoldable pub can_redeem : Store → ℕ → Option Joined → Instant → Bool
can_redeem s u none now = false
can_redeem s u (some j) now =
    if any (refers u) s.referrals || ltb 0 j.bookings
    then false
    else leb_ℤ (now -ℤ j.created_at) (pos (redeem_within_days * day_ms))

-- The owner of the code that was entered.
pub record Owner : Type 0 where
  pub user : ℕ
  pub is_active : Bool
  pub is_deleted : Bool

abbrev owner_refused : ℕ → Option Owner → Bool
owner_refused u none = true
owner_refused u (some o) = o.user == u || not o.is_active || o.is_deleted

abbrev owner_of : ℕ → Option Owner → ℕ
owner_of u none = u
owner_of u (some o) = o.user

-- `redeem`: `within_limit` is the rate limiter's answer. A second referral of the same person is
-- refused by the unique index.
unfoldable pub redeem :
    Store → Bool → ℕ → Option Joined → Option Owner → Instant → Result RedeemError Store
redeem s within_limit u joined owner now =
    if not within_limit
    then err rate_limited
    else if not (can_redeem s u joined now)
    then err referral_not_allowed
    else if owner_refused u owner
    then err referral_code_invalid
    else if any (refers u) s.referrals
    then err referral_not_allowed
    else ok (record {
      entries = entry u none (pos referee_credit) grant_referee ∷ s.entries;
      referrals =
          record { referee = u; referrer = owner_of u owner; rewarded_at = none } ∷ s.referrals;
    })

pub data RevokeError : Type 0 where
  credit_too_large : ℤ → RevokeError

-- `revoke`, by an admin.
unfoldable pub revoke_credit : Entries → ℕ → ℕ → Result RevokeError Entries
revoke_credit es u amount =
    let balance = credit_balance es u in
    if ltb_ℤ balance (pos amount)
    then err (credit_too_large balance)
    else ok (entry u none (pos 0 -ℤ pos amount) revoke ∷ es)

abbrev pub is_rewarded : ℕ → Referral → Bool
is_rewarded u r = r.referrer == u && is_some r.rewarded_at

-- `update where refereeId = u and rewardedAt is null`.
unfoldable pub claim : ℕ → Instant → List Referral → List Referral
claim u now [] = []
claim u now (r ∷ rs) =
    (if u == r.referee && not (is_some r.rewarded_at)
      then record r { rewarded_at = some now }
      else r)
    ∷ claim u now rs

-- `rewardReferrer` on the referral that was found; `active` says that the inviter's account is.
unfoldable pub reward_found : Store → Referral → Bool → Instant → Store × Bool
reward_found s r active now =
    if is_some r.rewarded_at
    then (s, false)
    else if not active
    then (s, false)
    else if leb max_referrer_rewards (length (filter (is_rewarded r.referrer) s.referrals))
    then (s, false)
    else (
      record {
        entries = entry r.referrer none (pos referrer_credit) grant_referrer ∷ s.entries;
        referrals = claim r.referee now s.referrals;
      },
      true,
    )

unfoldable pub reward_referrer : Store → ℕ → (ℕ → Bool) → Instant → Store × Bool
reward_referrer s referee is_active now = elim (find (refers referee) s.referrals) [
  | none ↦ (s, false)
  | some r ↦ reward_found s r (is_active r.referrer) now
]
