-- ===== src/Creation/Bookings.antt =====
-- A request for a listing at its price, and an offer accepted in the chat, become a booking in one
-- transaction with the hold of credit. The answers of the other services (the person is verified, the
-- listing that is live, blocked people, held dates, the open bookings, the rate limiter) are arguments.
use nivra.Prelude.{
  ℕ, Bool, false, not, Option, none, some, List, ◌++◌, Result, ok, err, ltb, ◌==◌, if◌then◌else◌,
}
use nivra.Prelude.Int.{ℤ, pos, ◌+ℤ◌, ◌-ℤ◌}
use nivra.Rounding.{share_of}
use nivra.Time.{Instant}
use nivra.Bookings.Status.{Status, requested, awaiting_docs, awaiting_payment}
use nivra.Bookings.Rules.{BookingState}
use nivra.Bookings.Policy.{Windows, deadline_for}
use nivra.Pricing.Quotes.{
  PricingInput, DateRange, Quote, UnavailableReason, quote, borrower_fee_bps,
}
use nivra.Credits.Entries.{Entries, hold_credit}

pub record Listing : Type 0 where
  pub lender : ℕ
  pub pricing : PricingInput

-- The fields of the new row that are computed here.
pub record NewBooking : Type 0 where
  pub id : ℕ
  pub borrower : ℕ
  pub lender : ℕ
  pub starts_on : Instant
  pub ends_on : Instant
  pub days : ℤ
  pub rent : ℤ
  pub fee : ℤ
  pub deposit : ℕ
  pub credit : ℤ
  pub total : ℤ
  pub status : Status
  pub expires_at : Option Instant

-- `unavailable` carries the reason of the quote.
pub data CreateError : Type 0 where
  not_verified not_found own_listing blocked_person open_exists too_many conflict : CreateError
  unavailable : Option UnavailableReason → CreateError

pub record Answers : Type 0 where
  pub verified : Bool
  pub listing : Option Listing
  pub blocked : Bool
  pub held : List DateRange
  pub open_bookings : ℕ
  pub within_limit : Bool

-- `{ ...listing, blocks: [...listing.blocks, ...held] }`.
abbrev pub with_held : PricingInput → List DateRange → PricingInput
with_held p held = record p { blocks = p.blocks ++ held }

abbrev pub new_state : Status → Bool → Instant → BookingState
new_state s docs starts_on = record {
  status = s;
  requires_docs = docs;
  docs_submitted = false;
  starts_on = some starts_on;
  ends_on = none;
  returned_at = none;
}

-- `if (credit > 0)` the credit is set and taken off the total; a credit of 0 changes neither.
abbrev pub set_credit : NewBooking → ℤ → NewBooking
set_credit b x = record b { credit = x; total = b.total -ℤ x }

abbrev pub credited : NewBooking → Option (ℤ × Entries) → Result CreateError (NewBooking × Entries)
credited b none = err conflict
credited b (some (x, es)) = ok (set_credit b x, es)

-- The transaction: the row and the hold of credit, or the conflict of a second hold.
unfoldable pub create_with_credit : NewBooking → Entries → Result CreateError (NewBooking × Entries)
create_with_credit b es = credited b (hold_credit es b.borrower b.id b.rent)

abbrev pub row_of : Quote → ℕ → ℕ → ℕ → Instant → Instant → Option Instant → NewBooking
row_of q id borrower lender start end expires_at = record {
  id = id;
  borrower = borrower;
  lender = lender;
  starts_on = start;
  ends_on = end;
  days = q.days;
  rent = q.rent;
  fee = q.fee;
  deposit = q.deposit;
  credit = pos 0;
  total = q.total;
  status = requested;
  expires_at = expires_at;
}

-- `request` once the listing is found.
unfoldable pub request_listing :
    Windows
    → Answers
    → Listing
    → ℕ
    → ℕ
    → Instant
    → Instant
    → Instant
    → Instant
    → Entries
    → Result CreateError (NewBooking × Entries)
unfolding create_with_credit
request_listing w a l id borrower start end today now es =
    let q = quote (with_held l.pricing a.held) start end today in
    let deadline = deadline_for (new_state requested false start) start now w in
    if l.lender == borrower
    then err own_listing
    else if a.blocked
    then err blocked_person
    else if not q.available
    then err (unavailable q.unavailable_reason)
    else if ltb 0 a.open_bookings
    then err open_exists
    else if not a.within_limit
    then err too_many
    else create_with_credit (row_of q id borrower l.lender start end deadline) es

unfoldable pub request :
    Windows
    → Answers
    → ℕ
    → ℕ
    → Instant
    → Instant
    → Instant
    → Instant
    → Entries
    → Result CreateError (NewBooking × Entries)
unfolding request_listing
request w a id borrower start end today now es =
    if not a.verified then err not_verified else elim a.listing [
      | none ↦ err not_found
      | some l ↦ request_listing w a l id borrower start end today now es
    ]

-- An agreed offer.
pub record Offer : Type 0 where
  pub starts_on : Instant
  pub ends_on : Instant
  pub days : ℕ
  pub rent : ℕ
  pub deposit : ℕ

abbrev pub offer_status : ℕ → Status
offer_status required_docs = if ltb 0 required_docs then awaiting_docs else awaiting_payment

abbrev pub offer_row : Offer → ℕ → ℕ → ℕ → Status → Option Instant → NewBooking
offer_row o id borrower lender status expires_at = record {
  id = id;
  borrower = borrower;
  lender = lender;
  starts_on = o.starts_on;
  ends_on = o.ends_on;
  days = pos o.days;
  rent = pos o.rent;
  fee = share_of (pos o.rent) borrower_fee_bps;
  deposit = o.deposit;
  credit = pos 0;
  total = pos o.rent +ℤ share_of (pos o.rent) borrower_fee_bps +ℤ pos o.deposit;
  status = status;
  expires_at = expires_at;
}

abbrev pub offer_deadline : Windows → Offer → ℕ → Instant → Option Instant
offer_deadline w o required_docs now =
    deadline_for (new_state (offer_status required_docs) (ltb 0 required_docs) o.starts_on)
      o.starts_on now w

unfoldable pub create_from_offer :
    Windows → Offer → ℕ → ℕ → ℕ → ℕ → Instant → Entries → Result CreateError (NewBooking × Entries)
unfolding create_with_credit
create_from_offer w o id borrower lender required_docs now es =
    create_with_credit
      (offer_row o id borrower lender (offer_status required_docs)
        (offer_deadline w o required_docs now))
      es
