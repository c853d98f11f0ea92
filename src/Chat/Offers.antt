-- ===== src/Chat/Offers.antt =====
-- offer-rules.ts and `OffersService` (apps/api/src/modules/chat), on the offers of one conversation,
-- the latest first. Two unique indexes of the database allow one PENDING and one ACCEPTED offer of a
-- conversation. Who takes part, blocked people, the listing with its held dates and open bookings,
-- and the rate limiter are arguments; messages and sockets are left out.
use nivra.Prelude.{
  ℕ, ◌*◌, Bool, true, false, not, ◌&&◌, ◌||◌, Option, none, some, List, ◌∷◌, map, find, Result, ok,
  err, ltb, ◌==◌, if◌then◌else◌,
}
use nivra.Prelude.Int.{pos, ◌+ℤ◌, ltb_ℤ, leb_ℤ}
use nivra.Time.{Instant, add_days, hour_ms}
use nivra.Pricing.Quotes.{PricingInput, UnavailableReason, quote}

pub data OfferStatus : Type 0 where
  pending accepted countered declined expired superseded : OfferStatus

pub record Offer : Type 0 where
  pub id : ℕ
  pub proposed_by : ℕ
  pub starts_on : Instant
  pub ends_on : Instant
  pub price_per_day : ℕ
  pub rent : ℕ
  pub deposit : ℕ
  pub status : OfferStatus
  pub parent : Option ℕ
  pub expires_at : Instant

pub data OfferError : Type 0 where
  not_found blocked invalid_price listing_not_live open_booking offer_expired own_offer : OfferError
  too_many : OfferError
  not_pending : OfferStatus → OfferError
  conflict : OfferError
  unavailable : Option UnavailableReason → OfferError

abbrev pub offer_ttl_hours : ℕ
offer_ttl_hours = 48

-- 48 hours from now, or the end of the first rental day if that comes sooner.
unfoldable pub offer_expires_at : Instant → Instant → Instant
unfolding add_days
offer_expires_at now starts_on =
    let ttl = now +ℤ pos (offer_ttl_hours * hour_ms) in
    let last = add_days starts_on 1 in if ltb_ℤ ttl last then ttl else last

abbrev pub is_pending : OfferStatus → Bool
is_pending pending = true
is_pending s = false

abbrev pub is_accepted : OfferStatus → Bool
is_accepted accepted = true
is_accepted s = false

unfoldable pub effective_status : Offer → Instant → OfferStatus
effective_status o now = if is_pending o.status && leb_ℤ o.expires_at now then expired else o.status

unfoldable pub offer_rent : ℕ → ℕ → ℕ
offer_rent price_per_day days = price_per_day * days

abbrev pub Offers : Type 0
Offers = List Offer

abbrev pub Run : Type 0
Run = Offers × Result OfferError ℕ

abbrev pub has_id : ℕ → Offer → Bool
has_id id o = o.id == id

-- `update where id`.
abbrev pub set_one : ℕ → OfferStatus → Offer → Offer
set_one id s o = if has_id id o then record o { status = s } else o

unfoldable pub set_status : ℕ → OfferStatus → Offers → Offers
set_status id s os = map (set_one id s) os

-- What the other services answer to a person in the conversation.
pub record Answers : Type 0 where
  pub takes_part : Bool
  pub is_blocked : Bool
  pub listing : PricingInput
  pub is_live : Bool
  pub has_open_booking : Bool
  pub within_limit : Bool
  pub today : Instant

-- `assertBookable`.
unfoldable pub assert_bookable :
    PricingInput → Instant → Instant → Instant → Result OfferError (Unit {0})
unfolding quote
assert_bookable listing starts_on ends_on today =
    let q = quote listing starts_on ends_on today in
    if q.available then ok tt else err (unavailable q.unavailable_reason)

-- A PENDING offer is answered by a new one.
abbrev pub replace_one : Instant → Offer → Offer
replace_one now o =
    if is_pending o.status
    then record o { status = if leb_ℤ o.expires_at now then expired else countered }
    else o

pub record Terms : Type 0 where
  pub starts_on : Instant
  pub ends_on : Instant
  pub days : ℕ
  pub price_per_day : ℕ

unfoldable pub new_offer : ℕ → ℕ → Terms → ℕ → Option ℕ → Instant → Offer
unfolding offer_rent offer_expires_at
new_offer id user t deposit parent now = record {
  id = id;
  proposed_by = user;
  starts_on = t.starts_on;
  ends_on = t.ends_on;
  price_per_day = t.price_per_day;
  rent = offer_rent t.price_per_day t.days;
  deposit = deposit;
  status = pending;
  parent = parent;
  expires_at = offer_expires_at now t.starts_on;
}

-- The transaction of `propose`.
unfoldable pub write_offer : Offers → ℕ → ℕ → Terms → ℕ → Option ℕ → Instant → Offers
unfolding new_offer
write_offer os id user t deposit parent now =
    new_offer id user t deposit parent now ∷ map (replace_one now) os

abbrev pub min_price : ℕ
min_price = 1000

abbrev pub max_price : ℕ
max_price = 1000000

abbrev pub proposed_after : Offers → Offers → ℕ → Result OfferError (Unit {0}) → Bool → Run
proposed_after os os' id (err e) within = (os, err e)
proposed_after os os' id (ok u) false = (os, err too_many)
proposed_after os os' id (ok u) true = (os', ok id)

-- `propose`; `id` is the new row's.
unfoldable pub propose : Offers → Answers → ℕ → ℕ → Terms → ℕ → Option ℕ → Instant → Run
unfolding assert_bookable write_offer
propose os a id user t deposit parent now =
    if a.is_blocked
    then (os, err blocked)
    else if ltb t.price_per_day min_price || ltb max_price t.price_per_day
    then (os, err invalid_price)
    else proposed_after os (write_offer os id user t deposit parent now) id
        (assert_bookable a.listing t.starts_on t.ends_on a.today) a.within_limit

-- The person's right to answer an offer; an expired offer that still says PENDING is marked.
unfoldable pub respondable :
    Offers → Answers → Offer → ℕ → Instant → Offers × Result OfferError (Unit {0})
unfolding effective_status set_status
respondable os a o user now =
    if not a.takes_part then (os, err not_found) else elim (effective_status o now) [
      | expired ↦
          (if is_pending o.status then set_status o.id expired os else os, err offer_expired)
      | pending ↦
          if o.proposed_by == user
          then (os, err own_offer)
          else if a.is_blocked
          then (os, err blocked)
          else (os, ok tt)
      | s ↦ (os, err (not_pending s))
    ]

abbrev pub may_answer : (Offers × Result OfferError (Unit {0})) → Run → Run
may_answer (os, err e) k = (os, err e)
may_answer (os, ok u) k = k

-- One agreed deal: an earlier one is replaced.
abbrev pub supersede_one : Offer → Offer
supersede_one o = if is_accepted o.status then record o { status = superseded } else o

unfoldable pub write_accept : Offers → ℕ → Offers
unfolding set_status
write_accept os id = set_status id accepted (map supersede_one os)

-- `accept`, of an offer that was found; `booked` is whether `createFromOffer` succeeds, and its error
-- takes back the whole transaction.
unfoldable pub accepted_after : Offers → ℕ → Result OfferError (Unit {0}) → Bool → Bool → Run
unfolding write_accept
accepted_after os id (err e) has_open booked = (os, err e)
accepted_after os id (ok u) true booked = (os, err open_booking)
accepted_after os id (ok u) false false = (os, err conflict)
accepted_after os id (ok u) false true = (write_accept os id, ok id)

unfoldable pub accept_found : Offers → Answers → Offer → ℕ → Bool → Instant → Run
unfolding respondable assert_bookable accepted_after
accept_found os a o user booked now = may_answer (respondable os a o user now) (
    if not a.is_live
    then (os, err listing_not_live)
    else accepted_after os o.id (assert_bookable a.listing o.starts_on o.ends_on a.today)
        a.has_open_booking booked)

unfoldable pub decline_found : Offers → Answers → Offer → ℕ → Instant → Run
unfolding respondable set_status
decline_found os a o user now =
    may_answer (respondable os a o user now) (set_status o.id declined os, ok o.id)

unfoldable pub counter_found : Offers → Answers → Offer → ℕ → ℕ → Terms → ℕ → Instant → Run
unfolding respondable propose
counter_found os a o id user t deposit now =
    may_answer (respondable os a o user now) (propose os a id user t deposit (some o.id) now)

-- The lookup of the offer that an answer names.
abbrev pub found_offer : Offers → ℕ → (Offer → Run) → Run
found_offer os id k = elim (find (has_id id) os) [ none ↦ (os, err not_found) | some o ↦ k o ]

unfoldable pub accept : Offers → Answers → ℕ → ℕ → Bool → Instant → Run
unfolding accept_found
accept os a id user booked now = found_offer os id (λ o. accept_found os a o user booked now)

unfoldable pub decline : Offers → Answers → ℕ → ℕ → Instant → Run
unfolding decline_found
decline os a id user now = found_offer os id (λ o. decline_found os a o user now)

unfoldable pub counter : Offers → Answers → ℕ → ℕ → ℕ → Terms → ℕ → Instant → Run
unfolding counter_found
counter os a id new user t deposit now =
    found_offer os id (λ o. counter_found os a o new user t deposit now)

-- `create` of a new offer in the chat.
unfoldable pub create : Offers → Answers → ℕ → ℕ → Terms → ℕ → Instant → Run
unfolding propose
create os a new user t deposit now =
    if not a.takes_part then (os, err not_found) else propose os a new user t deposit none now
