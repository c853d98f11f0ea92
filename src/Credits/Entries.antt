-- ===== src/Credits/Entries.antt =====
-- apps/api/src/modules/referrals/credits.ts. The table of credit entries is a list, the latest
-- first. The two unique indexes of the database (one HOLD and one RELEASE for each booking) refuse a
-- second entry. Locks and transactions make each operation one step.
use nivra.Prelude.{
  ℕ, Bool, true, false, ◌&&◌, Option, none, some, List, [], ◌∷◌, any, find, ◌==◌, if◌then◌else◌,
}
use nivra.Prelude.Int.{ℤ, pos, ◌+ℤ◌, ◌-ℤ◌, leb_ℤ, min_ℤ, max_ℤ, floor_div, mul_ℕ}

pub data CreditKind : Type 0 where
  grant_referee grant_referrer hold release revoke : CreditKind

pub record CreditEntry : Type 0 where
  pub user : ℕ
  pub booking : Option ℕ
  pub amount : ℤ
  pub kind : CreditKind

abbrev pub Entries : Type 0
Entries = List CreditEntry

abbrev is_hold : CreditKind → Bool
is_hold hold = true
is_hold k = false

abbrev is_release : CreditKind → Bool
is_release release = true
is_release k = false

abbrev same_booking : ℕ → Option ℕ → Bool
same_booking b none = false
same_booking b (some c) = b == c

abbrev pub holds_for : ℕ → CreditEntry → Bool
holds_for b e = is_hold e.kind && same_booking b e.booking

abbrev pub releases_for : ℕ → CreditEntry → Bool
releases_for b e = is_release e.kind && same_booking b e.booking

abbrev pub max_share_of_rent_bps : ℕ
max_share_of_rent_bps = 5000

abbrev pub referee_credit : ℕ
referee_credit = 10000

abbrev pub referrer_credit : ℕ
referrer_credit = 10000

abbrev pub max_referrer_rewards : ℕ
max_referrer_rewards = 20

abbrev pub redeem_within_days : ℕ
redeem_within_days = 7

-- `Math.floor((rentPaise * maxShareOfRentBps) / 10_000)`.
unfoldable pub credit_limit_for : ℤ → ℤ
unfolding floor_div mul_ℕ
credit_limit_for rent = floor_div (mul_ℕ rent max_share_of_rent_bps) 10000

unfoldable pub credit_balance : Entries → ℕ → ℤ
credit_balance [] u = pos 0
credit_balance (e ∷ es) u =
    let rest = credit_balance es u in if u == e.user then e.amount +ℤ rest else rest

abbrev pub entry : ℕ → Option ℕ → ℤ → CreditKind → CreditEntry
entry u b x k = record { user = u; booking = b; amount = x; kind = k }

-- `holdCredit`: the amount held and the new table; `none` where the unique index refuses the entry.
unfoldable pub hold_credit : Entries → ℕ → ℕ → ℤ → Option (ℤ × Entries)
hold_credit es u b rent =
    let amount = min_ℤ (credit_balance es u) (credit_limit_for rent) in
    if leb_ℤ amount (pos 0)
    then some (pos 0, es)
    else if any (holds_for b) es
    then none
    else some (amount, entry u (some b) (pos 0 -ℤ amount) hold ∷ es)

abbrev pub or_all : Option ℤ → ℤ → ℤ
or_all none held = held
or_all (some x) held = x

-- The part of `releaseCredit` after the booking's hold is found.
unfoldable pub release_hold : CreditEntry → Entries → ℕ → Option ℤ → ℤ × Entries
release_hold h es b wanted =
    let held = pos 0 -ℤ h.amount in
    let amount = min_ℤ held (or_all wanted held) in
    if leb_ℤ amount (pos 0)
    then (pos 0, es)
    else if any (releases_for b) es
    then (pos 0, es)
    else (amount, entry h.user (some b) amount release ∷ es)

-- `releaseCredit`: what was given back and the new table.
unfoldable pub release_credit : Entries → ℕ → Option ℤ → ℤ × Entries
release_credit es b wanted = elim (find (holds_for b) es) [
  | none ↦ (pos 0, es)
  | some h ↦ release_hold h es b wanted
]

unfoldable pub credit_back_for : ℤ → ℤ → ℤ
credit_back_for credit refund_rent = max_ℤ (pos 0) (min_ℤ credit refund_rent)
