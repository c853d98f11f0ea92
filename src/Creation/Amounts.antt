-- ===== src/Creation/Amounts.antt =====
-- The amounts of a new booking: what the database's checks on a booking ask for.
use nivra.Prelude.{
  ℕ, ◌+◌, ◌*◌, ◌≤◌, ◌≡◌, refl, Bool, true, false, Option, none, some, Result, ok, err, arith, ltb,
  not, ◌==◌, if◌then◌else◌,
}
use nivra.Prelude.Int.{ℤ, pos, pos_part, ◌+ℤ◌, ◌-ℤ◌, ◌≤ℤ◌}
use nivra.Time.{Instant, add_days}
use nivra.Bookings.Status.{requested}
use nivra.Bookings.Policy.{Windows, deadline_for}
use nivra.Pricing.Quotes.{PricingInput, Quote, quote}
use nivra.Pricing.Amount.{quote_amounts}
use nivra.Credits.Entries.{Entries, hold_credit, credit_balance}
use nivra.Credits.Release.{hold_credit_bounds}
use nivra.Creation.Bookings.{
  Listing, NewBooking, CreateError, own_listing, blocked_person, open_exists, too_many, unavailable,
  Answers, with_held, set_credit, credited, create_with_credit, row_of, Offer, offer_row,
  offer_status, offer_deadline, create_from_offer, request_listing, new_state,
}

-- The row adds up, its credit is at most half of the rent, and exactly the credit left the balance.
pub record IsPriced (b : NewBooking) (before after : Entries) : Type 0 where
  pub credit_nonneg : pos 0 ≤ℤ b.credit
  pub credit_within : b.credit +ℤ b.credit ≤ℤ b.rent
  pub adds_up : b.total ≡ b.rent +ℤ b.fee +ℤ pos b.deposit -ℤ b.credit
  pub credit_taken : credit_balance after b.borrower ≡ credit_balance before b.borrower -ℤ b.credit

-- The row carries what was quoted, for the days and between the people that were asked for.
pub record IsQuoted (q : Quote) (id borrower lender : ℕ) (start end : Instant) (b : NewBooking)
    : Type 0 where
  pub id_as_asked : b.id ≡ id
  pub borrower_as_asked : b.borrower ≡ borrower
  pub lender_as_listed : b.lender ≡ lender
  pub start_as_asked : b.starts_on ≡ start
  pub end_as_asked : b.ends_on ≡ end
  pub days_quoted : b.days ≡ q.days
  pub rent_quoted : b.rent ≡ q.rent
  pub fee_quoted : b.fee ≡ q.fee
  pub deposit_quoted : b.deposit ≡ q.deposit
  pub is_requested : b.status ≡ requested

held_cases :
    (o : Option (ℤ × Entries)) (b b' : NewBooking) (es' : Entries)
    → credited b o ≡ ok (b', es')
    → (x : ℤ) × (o ≡ some (x, es')) × (b' ≡ set_credit b x)
held_cases none b b' es' h = absurd (ground arith)
held_cases (some (x, es)) b b' es' h =
    let same : es ≡ es' = ground arith in (x, rw same refl, ground arith)

create-IsPriced :
    (b b' : NewBooking) (es es' : Entries) (rent : ℕ)
    → b.rent ≡ pos rent
    → b.total ≡ b.rent +ℤ b.fee +ℤ pos b.deposit
    → pos 0 ≤ℤ credit_balance es b.borrower
    → create_with_credit b es ≡ ok (b', es')
    → IsPriced b' es es'
unfolding create_with_credit
create-IsPriced b b' es es' rent priced total has h =
    let (x, held, same) = held_cases (hold_credit es b.borrower b.id b.rent) b b' es' h in
    let held' : hold_credit es b.borrower b.id (pos rent) ≡ some (x, es') = rw (← priced) held in
    let bounds = hold_credit_bounds es es' b.borrower b.id rent has held' in
    rw same (record {
      credit_nonneg = bounds.0;
      credit_within = rw priced bounds.2;
      adds_up = rw total refl;
      credit_taken = bounds.3;
    })

-- The credit changes nothing of this.
create-IsQuoted :
    (q : Quote) (id borrower lender : ℕ) (start end : Instant) (b b' : NewBooking)
    (es es' : Entries)
    → IsQuoted q id borrower lender start end b
    → create_with_credit b es ≡ ok (b', es')
    → IsQuoted q id borrower lender start end b'
unfolding create_with_credit
create-IsQuoted q id borrower lender start end b b' es es' quoted h =
    let (x, held, same) = held_cases (hold_credit es b.borrower b.id b.rent) b b' es' h in
    rw same (record {
      id_as_asked = quoted.id_as_asked;
      borrower_as_asked = quoted.borrower_as_asked;
      lender_as_listed = quoted.lender_as_listed;
      start_as_asked = quoted.start_as_asked;
      end_as_asked = quoted.end_as_asked;
      days_quoted = quoted.days_quoted;
      rent_quoted = quoted.rent_quoted;
      fee_quoted = quoted.fee_quoted;
      deposit_quoted = quoted.deposit_quoted;
      is_requested = quoted.is_requested;
    })

row_of-IsQuoted :
    (q : Quote) (id borrower lender : ℕ) (start end : Instant) (deadline : Option Instant)
    → IsQuoted q id borrower lender start end (row_of q id borrower lender start end deadline)
row_of-IsQuoted q id borrower lender start end deadline = record {
  id_as_asked = refl;
  borrower_as_asked = refl;
  lender_as_listed = refl;
  start_as_asked = refl;
  end_as_asked = refl;
  days_quoted = refl;
  rent_quoted = refl;
  fee_quoted = refl;
  deposit_quoted = refl;
  is_requested = refl;
}

-- A chain of guards that was passed.
passed :
    (own blocked free taken limit : Bool) (why : CreateError)
    (r : Result CreateError (NewBooking × Entries)) {c : NewBooking × Entries}
    → (if own
        then err own_listing
        else if blocked
        then err blocked_person
        else if not free
        then err why
        else if taken
        then err open_exists
        else if not limit
        then err too_many
        else r)
      ≡ ok c
    → (own ≡ false) × (free ≡ true) × (taken ≡ false) × (r ≡ ok c)
passed own blocked free taken limit why r h = ground arith

-- What `request` asks before it makes the row.
request-created :
    (w : Windows) (a : Answers) (l : Listing) (id borrower : ℕ) (start end today now : Instant)
    (es : Entries) {c : NewBooking × Entries}
    → request_listing w a l id borrower start end today now es ≡ ok c
    → let q = quote (with_held l.pricing a.held) start end today in
      ((l.lender == borrower) ≡ false)
      × (q.available ≡ true)
      × (a.open_bookings ≡ 0)
      × (create_with_credit
            (row_of q id borrower l.lender start end
              (deadline_for (new_state requested false start) start now w))
            es
          ≡ ok c)
unfolding request_listing
request-created w a l id borrower start end today now es h =
    let q = quote (with_held l.pricing a.held) start end today in
    let (own, free, untaken, made) =
      passed (l.lender == borrower) a.blocked q.available (ltb 0 a.open_bookings) a.within_limit
        (unavailable q.unavailable_reason)
        (create_with_credit
          (row_of q id borrower l.lender start end
            (deadline_for (new_state requested false start) start now w))
          es)
        h in
    (own, free, ground arith, made)

quote-total :
    (input : PricingInput) (start end today : Instant)
    → let q = quote input start end today in q.total ≡ q.rent +ℤ q.fee +ℤ pos q.deposit
unfolding quote
quote-total input start end today = refl

quote-deposit :
    (input : PricingInput) (start end today : Instant)
    → (quote input start end today).deposit ≡ input.deposit
unfolding quote
quote-deposit input start end today = refl

pos_of_nonneg : (x : ℤ) → pos 0 ≤ℤ x → x ≡ pos (pos_part x)
pos_of_nonneg x h = ground arith

-- A request for `n + 1` days that succeeds is for another person's listing, at a quote that is
-- available with the dates that are held, when the borrower has no open booking of it. The new row is
-- a request of the borrower for these days of this listing at the quote's rent, fee and deposit, and
-- the quote's rent is the daily price for each day less its weekly discount; and the row is priced, if
-- the discount is a percentage and the borrower's credit is not negative.
pub request-IsPriced :
    (w : Windows) (a : Answers) (l : Listing) (id borrower n : ℕ) (start today now : Instant)
    (es es' : Entries) (b : NewBooking)
    → l.pricing.weekly_discount_pct ≤ 100
    → pos 0 ≤ℤ credit_balance es borrower
    → request_listing w a l id borrower start (add_days start n) today now es ≡ ok (b, es')
    → let q = quote (with_held l.pricing a.held) start (add_days start n) today in
      ((l.lender == borrower) ≡ false)
      × (q.available ≡ true)
      × (a.open_bookings ≡ 0)
      × IsQuoted q id borrower l.lender start (add_days start n) b
      × (q.rent +ℤ q.weekly_discount ≡ pos ((n + 1) * l.pricing.price_per_day))
      × (q.deposit ≡ l.pricing.deposit)
      × IsPriced b es es'
request-IsPriced w a l id borrower n start today now es es' b pct has h =
    let (own, free, untaken, made) =
      request-created w a l id borrower start (add_days start n) today now es h in
    let q = quote (with_held l.pricing a.held) start (add_days start n) today in
    let amounts = quote_amounts (with_held l.pricing a.held) start today n pct in
    let deadline = deadline_for (new_state requested false start) start now w in
    (
      own,
      free,
      untaken,
      create-IsQuoted q id borrower l.lender start (add_days start n)
          (row_of q id borrower l.lender start (add_days start n) deadline) b es es'
          (row_of-IsQuoted q id borrower l.lender start (add_days start n) deadline) made,
      amounts.0,
      quote-deposit (with_held l.pricing a.held) start (add_days start n) today,
      create-IsPriced (row_of q id borrower l.lender start (add_days start n) deadline) b es es'
          (pos_part q.rent) (pos_of_nonneg q.rent amounts.2)
          (quote-total (with_held l.pricing a.held) start (add_days start n) today) has made,
    )

-- A booking made from an agreed offer is priced, if the borrower's credit is not negative.
create_from_offer-IsPriced :
    (w : Windows) (o : Offer) (id borrower lender required_docs : ℕ) (now : Instant)
    (es es' : Entries) (b : NewBooking)
    → pos 0 ≤ℤ credit_balance es borrower
    → create_from_offer w o id borrower lender required_docs now es ≡ ok (b, es')
    → IsPriced b es es'
unfolding create_from_offer
create_from_offer-IsPriced w o id borrower lender required_docs now es es' b has h =
    create-IsPriced
      (offer_row o id borrower lender (offer_status required_docs)
        (offer_deadline w o required_docs now))
      b es es' o.rent refl refl has h
