-- ===== src/Credits/Rewards.antt =====
-- How often an inviter is rewarded.
use nivra.Prelude.{
  ℕ, suc, ◌≤◌, ◌<◌, ◌≡◌, refl, ◌==◌, ==_iff, Bool, false, Bool-cases, Option-cases, inl, inr,
  Option, some, List, [], ◌∷◌, any, find, length, filter, ok, arith, if◌then◌else◌,
}
use nivra.Time.{Instant}
use nivra.Credits.Entries.{max_referrer_rewards}
use nivra.Credits.Referrals.{
  Store, Referral, Joined, Owner, refers, is_rewarded, claim, redeem, reward_referrer,
}
use nivra.Credits.Balance.{
  CreditStep, holding, releasing, revoking, redeeming, rewarding, CreditReach, start, next,
  reward_found-cases,
}

-- How many of an inviter's referrals were rewarded.
abbrev pub rewards : ℕ → List Referral → ℕ
rewards u rs = length (filter (is_rewarded u) rs)

-- Each person was invited once.
abbrev pub IsUnique : List Referral → Type 0
IsUnique [] = Unit
IsUnique (r ∷ rs) = (any (refers r.referee) rs ≡ false) × IsUnique rs

claim-fresh :
    (x : ℕ) (now : Instant) (rs : List Referral) → any (refers x) rs ≡ false → claim x now rs ≡ rs
unfolding claim
claim-fresh x now [] h = refl
claim-fresh x now (r ∷ rs) h = ground (arith, claim-fresh x now rs)

any-claim :
    (x y : ℕ) (now : Instant) (rs : List Referral)
    → any (refers y) (claim x now rs) ≡ any (refers y) rs
unfolding claim
any-claim x y now [] = refl
any-claim x y now (r ∷ rs) = ground (arith, any-claim x y now rs)

claim-IsUnique :
    (x : ℕ) (now : Instant) (rs : List Referral) → IsUnique rs → IsUnique (claim x now rs)
unfolding claim
claim-IsUnique x now [] h = tt
claim-IsUnique x now (r ∷ rs) h =
    ground (arith, claim-IsUnique x now rs h.1, any-claim x r.referee now rs)

rewards-claim :
    (u x : ℕ) (now : Instant) (rs : List Referral) {r : Referral}
    → IsUnique rs
    → find (refers x) rs ≡ some r
    → rewards u (claim x now rs) ≤ (if r.referrer == u then suc (rewards u rs) else rewards u rs)
unfolding claim
rewards-claim u x now [] h f = cc
rewards-claim u x now (q ∷ rs) {r = r} h f =
    ground (arith, claim-fresh q.referee now rs h.0, rewards-claim u x now rs {r = r} h.1)

find-refers :
    (x : ℕ) (rs : List Referral) {r : Referral} → find (refers x) rs ≡ some r → x ≡ r.referee
find-refers x [] f = cc
find-refers x (q ∷ rs) {r = r} f = ground (arith, find-refers x rs {r = r})

-- A claim keeps an inviter's rewards within the cap if there was room for one more.
claim-capped :
    (u x : ℕ) (now : Instant) (rs : List Referral) {r : Referral}
    → IsUnique rs
    → find (refers x) rs ≡ some r
    → rewards r.referrer rs < max_referrer_rewards
    → rewards u rs ≤ max_referrer_rewards
    → rewards u (claim x now rs) ≤ max_referrer_rewards
claim-capped u x now rs {r = r} unique found room old =
    let low = rewards-claim u x now rs {r = r} unique found in
    elim (Bool-cases (r.referrer == u)) [
      | inl same ↦
          (let e : r.referrer ≡ u = (==_iff r.referrer u).0 same in
            let room' : rewards u rs < max_referrer_rewards = rw e at room in
            let low' : rewards u (claim x now rs) ≤ suc (rewards u rs) = rw same at low in
            omega arith)
      | inr other ↦
          (let low' : rewards u (claim x now rs) ≤ rewards u rs = rw other at low in omega arith)
    ]

abbrev IsCapped : Store → Type 0
IsCapped s = IsUnique s.referrals × ((u : ℕ) → rewards u s.referrals ≤ max_referrer_rewards)

redeem-IsCapped :
    (s : Store) (w : Bool) (x : ℕ) (j : Option Joined) (o : Option Owner) (now : Instant)
    {t : Store}
    → redeem s w x j o now ≡ ok t
    → IsCapped s
    → IsCapped t
unfolding redeem
redeem-IsCapped s w x j o now h c = (ground (arith, c.0), λ u. ground (arith, c.1 u))

reward-IsCapped :
    (s : Store) (referee : ℕ) (is_active : ℕ → Bool) (now : Instant)
    → IsCapped s
    → IsCapped (reward_referrer s referee is_active now).0
unfolding reward_referrer
reward-IsCapped s referee is_active now c =
    elim (Option-cases (find (refers referee) s.referrals)) [
      | inl missing ↦ rw (missing, reward_referrer) c
      | inr (r, found) ↦
          rw (found, reward_referrer)
            (elim (reward_found-cases s r (is_active r.referrer) now) [
              | inl same ↦ rw same c
              | inr (fresh, room, e) ↦ rw e (
                claim-IsUnique r.referee now s.referrals c.0,
                rw (← find-refers referee s.referrals found)
                    (λ u. claim-capped u referee now s.referrals c.0 found room (c.1 u)),
              )
            ])
    ]

CreditStep-IsCapped : {s t : Store} → CreditStep s t → IsCapped s → IsCapped t
CreditStep-IsCapped (holding u b rent x es h) c = c
CreditStep-IsCapped (releasing b w) c = c
CreditStep-IsCapped (revoking u amount es h) c = c
CreditStep-IsCapped {s = s} (redeeming w u j o now h) c = redeem-IsCapped s w u j o now h c
CreditStep-IsCapped {s = s} (rewarding referee is_active now) c =
    reward-IsCapped s referee is_active now c

CreditReach-IsCapped : {s : Store} → CreditReach s → IsCapped s
CreditReach-IsCapped start = (tt, λ u. omega arith)
CreditReach-IsCapped (next r st) = CreditStep-IsCapped st (CreditReach-IsCapped r)

-- Whatever credit operations happen, in any order, nobody is invited twice and no inviter is
-- rewarded more than 20 times.
pub rewards_capped :
    {s : Store}
    → CreditReach s
    → IsUnique s.referrals × ((u : ℕ) → rewards u s.referrals ≤ max_referrer_rewards)
rewards_capped r = CreditReach-IsCapped r
