-- ===== src/Credits/Balance.antt =====
-- No sequence of credit operations takes anybody's balance below zero.
use nivra.Prelude.{
  ℕ, ◌<◌, ◌≡◌, ◌⊎◌, Bool, true, false, Bool-cases, Option-cases, inl, inr, Option, none, some, [],
  ◌∷◌, any, find, length, filter, ok, arith,
}
use nivra.Prelude.Int.{ℤ, pos, ◌+ℤ◌, ◌-ℤ◌, ◌≤ℤ◌, ◌<ℤ◌, int_laws, +ℤ_parts, leb_ℤ, min_ℤ}
use nivra.Time.{Instant}
use nivra.Credits.Entries.{
  CreditEntry, CreditKind, Entries, entry, credit_balance, credit_limit_for, hold_credit,
  release_credit, release_hold, or_all, holds_for, releases_for, hold, release, revoke,
  grant_referee, grant_referrer, referee_credit, referrer_credit, max_referrer_rewards,
}
use nivra.Credits.Referrals.{
  refers, is_rewarded, claim, Referral, Store, Joined, Owner, redeem, revoke_credit,
  reward_referrer, reward_found,
}

abbrev pub IsNonneg : Entries → Type 0
IsNonneg es = (u : ℕ) → pos 0 ≤ℤ credit_balance es u

-- An entry that takes at most the balance keeps every balance at zero or more.
entry-IsNonneg :
    (es : Entries) (u : ℕ) (b : Option ℕ) (x : ℤ) (k : CreditKind)
    → pos 0 ≤ℤ credit_balance es u +ℤ x
    → IsNonneg es
    → IsNonneg (entry u b x k ∷ es)
unfolding credit_balance
entry-IsNonneg es u b x k h all v =
    ground (arith, all v, +ℤ_parts x (credit_balance es u), +ℤ_parts (credit_balance es u) x)

-- What `hold_credit` may do: nothing, or take a positive amount of at most the balance and the
-- limit, for a booking that holds no credit yet.
pub hold_credit-cases :
    (es es' : Entries) (u b : ℕ) (rent x : ℤ)
    → hold_credit es u b rent ≡ some (x, es')
    → ((x ≡ pos 0) × (es' ≡ es))
      ⊎ ((pos 0 <ℤ x)
          × (x ≤ℤ credit_balance es u)
          × (x ≤ℤ credit_limit_for rent)
          × (any (holds_for b) es ≡ false)
          × (es' ≡ entry u (some b) (pos 0 -ℤ x) hold ∷ es))
unfolding hold_credit
hold_credit-cases es es' u b rent x h = ground arith

hold-IsNonneg :
    (es es' : Entries) (u b : ℕ) (rent x : ℤ)
    → IsNonneg es
    → hold_credit es u b rent ≡ some (x, es')
    → IsNonneg es'
hold-IsNonneg es es' u b rent x all h = elim (hold_credit-cases es es' u b rent x h) [
  | inl (zero_held, same) ↦ rw same all
  | inr (above, within, limit, fresh, e) ↦
      rw e (entry-IsNonneg es u (some b) (pos 0 -ℤ x) hold (omega int_laws) all)
]

-- What `release_hold` may do: nothing, or give back a positive amount of at most what was held.
pub release_hold-cases :
    (h : CreditEntry) (es : Entries) (b : ℕ) (w : Option ℤ)
    → (release_hold h es b w ≡ (pos 0, es))
      ⊎ ((x : ℤ) × (pos 0 <ℤ x)
          × (x ≤ℤ pos 0 -ℤ h.amount)
          × (any (releases_for b) es ≡ false)
          × (release_hold h es b w ≡ (x, entry h.user (some b) x release ∷ es)))
unfolding release_hold
release_hold-cases h es b w =
    let held = pos 0 -ℤ h.amount in
    let x = min_ℤ held (or_all w held) in
    elim (Bool-cases (leb_ℤ x (pos 0))) [
      | inl small ↦ inl (rw small)
      | inr big ↦ elim (Bool-cases (any (releases_for b) es)) [
        | inl again ↦ inl (rw (big, again))
        | inr fresh ↦ inr (x, ground arith, ground arith, fresh, rw (big, fresh))
      ]
    ]

release-IsNonneg :
    (es : Entries) (b : ℕ) (w : Option ℤ) → IsNonneg es → IsNonneg (release_credit es b w).1
unfolding release_credit
release-IsNonneg es b w all = elim (Option-cases (find (holds_for b) es)) [
  | inl missing ↦ rw (missing, release_credit) all
  | inr (h, found) ↦
      rw (found, release_credit)
        (elim (release_hold-cases h es b w) [
          | inl same ↦ rw same all
          | inr (x, above, within, fresh, e) ↦
              rw e (entry-IsNonneg es h.user (some b) x release (omega (int_laws, all h.user)) all)
        ])
]

revoke_credit-ok :
    (es : Entries) (u amount : ℕ) {es' : Entries}
    → revoke_credit es u amount ≡ ok es'
    → (pos amount ≤ℤ credit_balance es u) × (es' ≡ entry u none (pos 0 -ℤ pos amount) revoke ∷ es)
unfolding revoke_credit
revoke_credit-ok es u amount h = ground arith

revoke-IsNonneg :
    (es es' : Entries) (u amount : ℕ)
    → IsNonneg es
    → revoke_credit es u amount ≡ ok es'
    → IsNonneg es'
revoke-IsNonneg es es' u amount all h =
    let (within, e) = revoke_credit-ok es u amount h in
    rw e (entry-IsNonneg es u none (pos 0 -ℤ pos amount) revoke (omega int_laws) all)

grant-IsNonneg :
    (es : Entries) (u n : ℕ) (k : CreditKind) → IsNonneg es → IsNonneg (entry u none (pos n) k ∷ es)
grant-IsNonneg es u n k all = entry-IsNonneg es u none (pos n) k (omega (int_laws, all u)) all

-- The operations on credit, in any order and on behalf of anybody.
pub data CreditStep (s : Store) : Store → Type 0 where
  holding :
      (u b : ℕ) (rent x : ℤ) (es : Entries)
      → hold_credit s.entries u b rent ≡ some (x, es)
      → CreditStep s (record s { entries = es })
  releasing :
      (b : ℕ) (w : Option ℤ)
      → CreditStep s (record s { entries = (release_credit s.entries b w).1 })
  revoking :
      (u amount : ℕ) (es : Entries)
      → revoke_credit s.entries u amount ≡ ok es
      → CreditStep s (record s { entries = es })
  redeeming :
      {t : Store} (within_limit : Bool) (u : ℕ) (j : Option Joined) (o : Option Owner)
      (now : Instant)
      → redeem s within_limit u j o now ≡ ok t
      → CreditStep s t
  rewarding :
      (referee : ℕ) (is_active : ℕ → Bool) (now : Instant)
      → CreditStep s (reward_referrer s referee is_active now).0

pub data CreditReach : Store → Type 0 where
  start : CreditReach (record { entries = []; referrals = [] })
  next : {s t : Store} → CreditReach s → CreditStep s t → CreditReach t

redeem-entries :
    (s : Store) (w : Bool) (u : ℕ) (j : Option Joined) (o : Option Owner) (now : Instant)
    {t : Store}
    → redeem s w u j o now ≡ ok t
    → t.entries ≡ entry u none (pos referee_credit) grant_referee ∷ s.entries
unfolding redeem
redeem-entries s w u j o now h = ground arith

-- What `reward_found` may do: nothing, or pay the inviter of a referral that was not rewarded.
pub reward_found-cases :
    (s : Store) (r : Referral) (active : Bool) (now : Instant)
    → (reward_found s r active now ≡ (s, false))
      ⊎ ((r.rewarded_at ≡ none)
          × (length (filter (is_rewarded r.referrer) s.referrals) < max_referrer_rewards)
          × (reward_found s r active now ≡ (
            record {
              entries = entry r.referrer none (pos referrer_credit) grant_referrer ∷ s.entries;
              referrals = claim r.referee now s.referrals;
            },
            true,
          )))
unfolding reward_found
reward_found-cases s r active now = ground arith

reward-IsNonneg :
    (s : Store) (referee : ℕ) (is_active : ℕ → Bool) (now : Instant)
    → IsNonneg s.entries
    → IsNonneg (reward_referrer s referee is_active now).0.entries
unfolding reward_referrer
reward-IsNonneg s referee is_active now all =
    elim (Option-cases (find (refers referee) s.referrals)) [
      | inl missing ↦ rw (missing, reward_referrer) all
      | inr (r, found) ↦
          rw (found, reward_referrer)
            (elim (reward_found-cases s r (is_active r.referrer) now) [
              | inl same ↦ rw same all
              | inr (fresh, room, e) ↦
                  rw e (grant-IsNonneg s.entries r.referrer referrer_credit grant_referrer all)
            ])
    ]

CreditStep-IsNonneg : {s t : Store} → CreditStep s t → IsNonneg s.entries → IsNonneg t.entries
CreditStep-IsNonneg (holding u b rent x es h) all = hold-IsNonneg _ es u b rent x all h
CreditStep-IsNonneg {s = s} (releasing b w) all = release-IsNonneg s.entries b w all
CreditStep-IsNonneg (revoking u amount es h) all = revoke-IsNonneg _ es u amount all h
CreditStep-IsNonneg {s = s} (redeeming w u j o now h) all =
    rw (redeem-entries s w u j o now h)
      (grant-IsNonneg s.entries u referee_credit grant_referee all)
CreditStep-IsNonneg {s = s} (rewarding referee is_active now) all =
    reward-IsNonneg s referee is_active now all

-- Whatever holds, releases, revocations, redeemed codes and rewards happen, in any order, nobody's
-- credit balance is ever below zero.
pub balance_nonneg : {s : Store} → CreditReach s → (u : ℕ) → pos 0 ≤ℤ credit_balance s.entries u
unfolding credit_balance
balance_nonneg start u = omega arith
balance_nonneg (next r st) u = CreditStep-IsNonneg st (balance_nonneg r) u
