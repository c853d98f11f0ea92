-- ===== src/Bookings/Policy.antt =====
-- Deadlines, late fees, the cancellation policy and document types of booking-rules.ts. Amounts are
-- in paise; the database keeps every one of them at zero or more, so they are natural numbers.
use nivra.Prelude.{
  ℕ, ◌+◌, ◌-◌, ◌*◌, ◌/◌, min, Bool, true, false, not, ◌||◌, Option, none, some, List, [], ◌∷◌, any,
  ◌==◌, if◌then◌else◌,
}
use nivra.Prelude.Int.{pos, ◌+ℤ◌, ◌-ℤ◌, ltb_ℤ, leb_ℤ}
use nivra.Time.{Instant, hour_ms, minute_ms, add_days, rental_start, claim_until}
use nivra.Bookings.Status.{
  Status, requested, awaiting_docs, awaiting_payment, returned, is, Party, borrower,
}
use nivra.Bookings.Rules.{BookingState}

pub record Windows : Type 0 where
  pub request_min : ℕ
  pub docs_min : ℕ
  pub payment_min : ℕ

abbrev step_minutes : Status → Windows → Option ℕ
step_minutes s w =
    if is s requested
    then some w.request_min
    else if is s awaiting_docs
    then some w.docs_min
    else if is s awaiting_payment
    then some w.payment_min
    else none

-- `starts_on` is the field that `BookingState & { startsOn: Date }` makes certain.
unfoldable pub deadline_for : BookingState → Instant → Instant → Windows → Option Instant
unfolding claim_until add_days
deadline_for b starts_on now w =
    if is b.status returned then some (claim_until now) else elim (step_minutes b.status w) [
      | none ↦ none
      | some minutes ↦
          (let step = now +ℤ pos (minutes * minute_ms) in
            let last_chance = add_days starts_on 1 in
            some (if ltb_ℤ step last_chance then step else last_chance))
    ]

unfoldable pub late_fee_for : ℕ → ℕ → ℕ → ℕ
late_fee_for late_days price_per_day deposit = min (late_days * price_per_day) deposit

-- `Math.max(0, deposit - lateFee)`.
unfoldable pub max_keepable : ℕ → ℕ → ℕ
max_keepable deposit late_fee = deposit - late_fee

pub data Tier : Type 0 where
  full half_rent deposit_only : Tier

pub record Refund : Type 0 where
  pub tier : Tier
  pub rent : ℕ
  pub fee : ℕ
  pub deposit : ℕ
  pub total : ℕ

-- What the policy reads of a booking.
pub record Paid : Type 0 where
  pub rent : ℕ
  pub fee : ℕ
  pub deposit : ℕ
  pub starts_on : Instant

abbrev is_borrower : Party → Bool
is_borrower borrower = true
is_borrower p = false

-- Hours are compared as milliseconds: `x / 3_600_000 > 48` for an integral `x`.
refund_tier : Instant → Party → Instant → Tier
unfolding rental_start
refund_tier starts_on cancelled_by now =
    let before = rental_start starts_on -ℤ now in
    if not (is_borrower cancelled_by) || ltb_ℤ (pos (48 * hour_ms)) before
    then full
    else if leb_ℤ (pos (24 * hour_ms)) before
    then half_rent
    else deposit_only

-- `Math.round(rent / 2)` rounds a half up.
abbrev rent_back : Tier → ℕ → ℕ
rent_back full rent = rent
rent_back half_rent rent = (rent + 1) / 2
rent_back deposit_only rent = 0

abbrev fee_back : Tier → ℕ → ℕ
fee_back full fee = fee
fee_back half_rent fee = 0
fee_back deposit_only fee = 0

unfoldable pub refund_for : Paid → Party → Instant → Refund
unfolding refund_tier
refund_for b cancelled_by now =
    let tier = refund_tier b.starts_on cancelled_by now in
    record {
      tier = tier;
      rent = rent_back tier b.rent;
      fee = fee_back tier b.fee;
      deposit = b.deposit;
      total = rent_back tier b.rent + fee_back tier b.fee + b.deposit;
    }

pub data RequiredDocType : Type 0 where
  government_id college_or_employee_id address_proof other : RequiredDocType

pub data DocumentType : Type 0 where
  aadhaar_masked pan driving_licence passport voter_id : DocumentType
  college_id employee_id address_proof other : DocumentType

abbrev doc_index : DocumentType → ℕ
doc_index DocumentType.aadhaar_masked = 0
doc_index DocumentType.pan = 1
doc_index DocumentType.driving_licence = 2
doc_index DocumentType.passport = 3
doc_index DocumentType.voter_id = 4
doc_index DocumentType.college_id = 5
doc_index DocumentType.employee_id = 6
doc_index DocumentType.address_proof = 7
doc_index DocumentType.other = 8

-- `none` is 'ANY'.
doc_types_for : RequiredDocType → Option (List DocumentType)
doc_types_for RequiredDocType.government_id =
    some (aadhaar_masked ∷ pan ∷ driving_licence ∷ passport ∷ voter_id ∷ [])
doc_types_for RequiredDocType.college_or_employee_id = some (college_id ∷ employee_id ∷ [])
doc_types_for RequiredDocType.address_proof =
    some (DocumentType.address_proof ∷ aadhaar_masked ∷ driving_licence ∷ passport ∷ voter_id ∷ [])
doc_types_for RequiredDocType.other = none

unfoldable pub satisfies : RequiredDocType → DocumentType → Bool
unfolding doc_types_for
satisfies required t = elim (doc_types_for required) [
  | none ↦ true
  | some allowed ↦ any (λ a. doc_index a == doc_index t) allowed
]
