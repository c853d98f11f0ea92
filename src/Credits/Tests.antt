-- ===== src/Credits/Tests.antt =====
-- Concrete credit: person 1 invites person 2, who books something for 150 rupees.
use nivra.Prelude.{ℕ, ◌≤◌, ◌≡◌, refl, true, false, Option, none, some, [], ◌∷◌, ok, arith}
use nivra.Prelude.Int.{ℤ, pos, ◌+ℤ◌, ◌-ℤ◌, ◌≤ℤ◌}
use nivra.Credits.Entries.{
  Entries, entry, grant_referee, hold, credit_balance, hold_credit, release_credit,
  credit_limit_for, max_referrer_rewards,
}
use nivra.Credits.Referrals.{Store, Joined, Owner, redeem, can_redeem}
use nivra.Credits.Balance.{CreditReach, start, next, redeeming, balance_nonneg}
use nivra.Credits.Release.{release-hold_credit}
use nivra.Credits.Rewards.{rewards, IsUnique, rewards_capped}

abbrev granted : Entries
granted = entry 2 none (pos 10000) grant_referee ∷ []

abbrev held : Entries
held = entry 2 (some 7) (pos 0 -ℤ pos 7500) hold ∷ granted

abbrev joined : Joined
joined = record { created_at = pos 0; bookings = 0 }

abbrev inviter : Owner
inviter = record { user = 1; is_active = true; is_deleted = false }

abbrev empty : Store
empty = record { entries = []; referrals = [] }

abbrev invited : Store
invited = record {
  entries = granted;
  referrals = record { referee = 2; referrer = 1; rewarded_at = none } ∷ [];
}

redeems : redeem empty true 2 (some joined) (some inviter) (pos 5) ≡ ok invited
unfolding redeem can_redeem ◌-ℤ◌
redeems = refl

reached : CreditReach invited
reached = next start (redeeming true 2 (some joined) (some inviter) (pos 5) redeems)

balance_nonneg_example : pos 0 ≤ℤ credit_balance granted 2
balance_nonneg_example = balance_nonneg reached 2

rewards_capped_example :
    IsUnique invited.referrals × ((u : ℕ) → rewards u invited.referrals ≤ max_referrer_rewards)
rewards_capped_example = rewards_capped reached

holds : hold_credit granted 2 7 (pos 15000) ≡ some (pos 7500, held)
unfolding hold_credit credit_balance credit_limit_for ◌+ℤ◌
holds = refl

release-hold_credit_example :
    let (given, after) = release_credit held 7 none in
    (given ≡ pos 7500)
    × (credit_balance after 2 ≡ credit_balance granted 2)
    × ((w : Option ℤ) → release_credit after 7 w ≡ (pos 0, after))
release-hold_credit_example =
    release-hold_credit granted held 2 7 15000 (pos 7500) refl (omega arith) holds
