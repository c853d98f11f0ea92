-- ===== src/Chat/Deals.antt =====
-- Any sequence of offers and answers in a chat.
use nivra.Prelude.{
  ℕ, ◌≤◌, ◌≡◌, ◌≢◌, ◌⊎◌, refl, inl, inr, Bool, true, false, not, ◌||◌, Option, none, some, [], any,
  find, Result, ok, err, arith, Option-cases, ltb, if◌then◌else◌,
}
use nivra.Prelude.Int.{◌<ℤ◌}
use nivra.Time.{Instant}
use nivra.Chat.Offers.{
  Offer, expired, declined, pending, OfferError, not_found, Offers, Run, Answers, Terms, has_id,
  effective_status, respondable, may_answer, propose, proposed_after, write_offer, accepted_after,
  accept_found, decline_found, counter_found, accept, decline, counter, create, found_offer,
  set_status, assert_bookable, min_price, max_price,
}
use nivra.Chat.Open.{
  OneDeal, count, waits, agreed, IsDistinct, set_status-OneDeal, write_offer-OneDeal,
  write_accept-OneDeal,
}

record Safe (x : Run) : Type 0 where
  one : OneDeal x.0

guard-Safe :
    (test : Bool) (os : Offers) (e : OfferError) (k : Run)
    → OneDeal os
    → Safe k
    → Safe (if test then (os, err e) else k)
guard-Safe true os e k h rest = record { one = h }
guard-Safe false os e k h rest = rest

may_answer-Safe :
    (m : Offers × Result OfferError (Unit {0})) (k : Run)
    → OneDeal m.0
    → Safe k
    → Safe (may_answer m k)
may_answer-Safe (os, err e) k h rest = record { one = h }
may_answer-Safe (os, ok u) k h rest = rest

proposed-Safe :
    (os os' : Offers) (id : ℕ) (m : Result OfferError (Unit {0})) (within : Bool)
    → OneDeal os
    → OneDeal os'
    → Safe (proposed_after os os' id m within)
proposed-Safe os os' id (err e) within h k = record { one = h }
proposed-Safe os os' id (ok u) false h k = record { one = h }
proposed-Safe os os' id (ok u) true h k = record { one = k }

propose-Safe :
    (os : Offers) (a : Answers) (id user : ℕ) (t : Terms) (deposit : ℕ) (parent : Option ℕ)
    (now : Instant)
    → any (has_id id) os ≡ false
    → OneDeal os
    → Safe (propose os a id user t deposit parent now)
unfolding propose
propose-Safe os a id user t deposit parent now fresh h = guard-Safe a.is_blocked os _ _ h (
    guard-Safe (ltb t.price_per_day min_price || ltb max_price t.price_per_day) os _ _ h (
      proposed-Safe os (write_offer os id user t deposit parent now) id
        (assert_bookable a.listing t.starts_on t.ends_on a.today) a.within_limit h
        (write_offer-OneDeal os id user t deposit parent now fresh h)))

respondable-table :
    (os : Offers) (a : Answers) (o : Offer) (user : ℕ) (now : Instant)
    → ((respondable os a o user now).0 ≡ os)
      ⊎ ((respondable os a o user now).0 ≡ set_status o.id expired os)
unfolding respondable effective_status
respondable-table os a o user now = ground arith

respondable-ok :
    (os : Offers) (a : Answers) (o : Offer) (user : ℕ) (now : Instant)
    → (respondable os a o user now).1 ≡ ok tt
    → (o.status ≡ pending) × (now <ℤ o.expires_at) × (o.proposed_by ≢ user)
unfolding respondable effective_status
respondable-ok os a o user now h = ground arith

respondable-OneDeal :
    (os : Offers) (a : Answers) (o : Offer) (user : ℕ) (now : Instant)
    → OneDeal os
    → OneDeal (respondable os a o user now).0
respondable-OneDeal os a o user now h = elim (respondable-table os a o user now) [
  | inl same ↦ rw same h
  | inr marked ↦ rw marked (set_status-OneDeal o.id expired os refl refl h)
]

accepted_after-Safe :
    (os : Offers) (id : ℕ) (m : Result OfferError (Unit {0})) (has_open booked : Bool)
    → OneDeal os
    → Safe (accepted_after os id m has_open booked)
unfolding accepted_after
accepted_after-Safe os id (err e) has_open booked h = record { one = h }
accepted_after-Safe os id (ok u) true booked h = record { one = h }
accepted_after-Safe os id (ok u) false false h = record { one = h }
accepted_after-Safe os id (ok u) false true h = record { one = write_accept-OneDeal os id h }

accept_found-Safe :
    (os : Offers) (a : Answers) (o : Offer) (user : ℕ) (booked : Bool) (now : Instant)
    → OneDeal os
    → Safe (accept_found os a o user booked now)
unfolding accept_found
accept_found-Safe os a o user booked now h =
    may_answer-Safe (respondable os a o user now) _ (respondable-OneDeal os a o user now h) (
      guard-Safe (not a.is_live) os _ _ h (
        accepted_after-Safe os o.id (assert_bookable a.listing o.starts_on o.ends_on a.today)
          a.has_open_booking booked h))

decline_found-Safe :
    (os : Offers) (a : Answers) (o : Offer) (user : ℕ) (now : Instant)
    → OneDeal os
    → Safe (decline_found os a o user now)
unfolding decline_found
decline_found-Safe os a o user now h =
    may_answer-Safe (respondable os a o user now) _ (respondable-OneDeal os a o user now h)
      (record { one = set_status-OneDeal o.id declined os refl refl h })

counter_found-Safe :
    (os : Offers) (a : Answers) (o : Offer) (id user : ℕ) (t : Terms) (deposit : ℕ) (now : Instant)
    → any (has_id id) os ≡ false
    → OneDeal os
    → Safe (counter_found os a o id user t deposit now)
unfolding counter_found
counter_found-Safe os a o id user t deposit now fresh h =
    may_answer-Safe (respondable os a o user now) (propose os a id user t deposit (some o.id) now)
      (respondable-OneDeal os a o user now h)
      (propose-Safe os a id user t deposit (some o.id) now fresh h)

found-Safe :
    (os : Offers) (id : ℕ) (k : Offer → Run)
    → OneDeal os
    → ((o : Offer) → Safe (k o))
    → Safe (found_offer os id k)
found-Safe os id k h each = elim (Option-cases (find (has_id id) os)) [
  | inl missing ↦ rw (missing, found_offer) (record { one = h })
  | inr (o, found) ↦ rw (found, found_offer) (each o)
]

create-Safe :
    (os : Offers) (a : Answers) (id user : ℕ) (t : Terms) (deposit : ℕ) (now : Instant)
    → any (has_id id) os ≡ false
    → OneDeal os
    → Safe (create os a id user t deposit now)
unfolding create
create-Safe os a id user t deposit now fresh h =
    guard-Safe (not a.takes_part) os _ _ h (propose-Safe os a id user t deposit none now fresh h)

-- The calls on the offers of a chat; a new row's id is fresh.
pub data ChatStep (os : Offers) : Offers → Type 0 where
  creates :
      (a : Answers) (id user : ℕ) (t : Terms) (deposit : ℕ) (now : Instant)
      → any (has_id id) os ≡ false
      → ChatStep os (create os a id user t deposit now).0
  counters :
      (a : Answers) (of id user : ℕ) (t : Terms) (deposit : ℕ) (now : Instant)
      → any (has_id id) os ≡ false
      → ChatStep os (counter os a of id user t deposit now).0
  accepts :
      (a : Answers) (id user : ℕ) (booked : Bool) (now : Instant)
      → ChatStep os (accept os a id user booked now).0
  declines : (a : Answers) (id user : ℕ) (now : Instant) → ChatStep os (decline os a id user now).0

pub data ChatReach : Offers → Type 0 where
  start : ChatReach []
  more : {os os' : Offers} → ChatReach os → ChatStep os os' → ChatReach os'

ChatStep-OneDeal : {os os' : Offers} → ChatStep os os' → OneDeal os → OneDeal os'
unfolding counter accept decline
ChatStep-OneDeal {os = os} (creates a id user t deposit now fresh) h =
    (create-Safe os a id user t deposit now fresh h).one
ChatStep-OneDeal {os = os} (counters a of id user t deposit now fresh) h =
    (found-Safe os of (λ o. counter_found os a o id user t deposit now) h
      (λ o. counter_found-Safe os a o id user t deposit now fresh h)).one
ChatStep-OneDeal {os = os} (accepts a id user booked now) h =
    (found-Safe os id (λ o. accept_found os a o user booked now) h
      (λ o. accept_found-Safe os a o user booked now h)).one
ChatStep-OneDeal {os = os} (declines a id user now) h =
    (found-Safe os id (λ o. decline_found os a o user now) h
      (λ o. decline_found-Safe os a o user now h)).one

ChatReach-OneDeal : {os : Offers} → ChatReach os → OneDeal os
unfolding count IsDistinct
ChatReach-OneDeal start = record { one_open = omega arith; one_agreed = omega arith; distinct = tt }
ChatReach-OneDeal (more r st) = ChatStep-OneDeal st (ChatReach-OneDeal r)

-- Whatever offers, counter-offers, acceptances and refusals are tried in a chat, in any order, by
-- anybody and with any answers, at most one offer is open and at most one is agreed.
pub reach-one_deal : {os : Offers} → ChatReach os → (count waits os ≤ 1) × (count agreed os ≤ 1)
reach-one_deal r = let one = ChatReach-OneDeal r in (one.one_open, one.one_agreed)

may_answer-ok :
    (m : Offers × Result OfferError (Unit {0})) (k : Run) {id : ℕ}
    → (may_answer m k).1 ≡ ok id
    → m.1 ≡ ok tt
may_answer-ok (os, err e) k h = absurd (ground arith)
may_answer-ok (os, ok u) k h = refl

found_offer-ok :
    (os : Offers) (m : Option Offer) (k : Offer → Run) {x : ℕ}
    → (elim m as (λ y. Run) [ none ↦ (os, err not_found) | some o ↦ k o ]).1 ≡ ok x
    → (o : Offer) × (m ≡ some o) × ((k o).1 ≡ ok x)
found_offer-ok os none k h = absurd (ground arith)
found_offer-ok os (some o) k h = (o, refl, h)

-- An offer that somebody accepts is in the chat, was open and had not expired, and was made by the
-- other person.
accept-ok :
    (os : Offers) (a : Answers) (id user : ℕ) (booked : Bool) (now : Instant) {x : ℕ}
    → (accept os a id user booked now).1 ≡ ok x
    → (o : Offer) × (find (has_id id) os ≡ some o)
      × (o.status ≡ pending)
      × (now <ℤ o.expires_at)
      × (o.proposed_by ≢ user)
unfolding accept accept_found
accept-ok os a id user booked now h =
    let (o, found, taken) =
      found_offer-ok os (find (has_id id) os) (λ o. accept_found os a o user booked now) h in
    let (was_open, in_time, of_other) =
      respondable-ok os a o user now (may_answer-ok (respondable os a o user now) _ taken) in
    (o, found, was_open, in_time, of_other)
