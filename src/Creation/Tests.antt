-- ===== src/Creation/Tests.antt =====
-- A request for three days, with credit for it.
use nivra.Prelude.{◌*◌, ◌≡◌, ◌==◌, refl, true, false, none, some, [], ◌∷◌, Result, ok, err, arith}
use nivra.Prelude.Int.{pos, ◌+ℤ◌, ◌-ℤ◌}
use nivra.Time.{day_ms, add_days}
use nivra.Bookings.Status.{requested}
use nivra.Bookings.Policy.{Windows}
use nivra.Pricing.Quotes.{quote}
use nivra.Credits.Entries.{
  Entries, entry, grant_referee, credit_balance, credit_limit_for, hold_credit,
}
use nivra.Creation.Bookings.{
  Listing, NewBooking, CreateError, Answers, Offer, with_held, request_listing, create_with_credit,
}
use nivra.Creation.Amounts.{IsQuoted, IsPriced, request-IsPriced}

abbrev windows : Windows
windows = record { request_min = 1440; docs_min = 720; payment_min = 30 }

abbrev drill : Listing
drill = record {
  lender = 3;
  pricing = record {
    price_per_day = 15000;
    weekly_discount_pct = 10;
    deposit = 50000;
    min_days = 1;
    max_days = 30;
    advance_notice_days = 1;
    blocks = [];
  };
}

abbrev answers : Answers
answers = record {
  verified = true;
  listing = some drill;
  blocked = false;
  held = record { starts_on = pos (20 * day_ms); ends_on = pos (22 * day_ms) } ∷ [];
  open_bookings = 0;
  within_limit = true;
}

abbrev granted : Entries
granted = entry 2 none (pos 10000) grant_referee ∷ []

abbrev offer : Offer
offer = record {
  starts_on = pos (10 * day_ms);
  ends_on = pos (12 * day_ms);
  days = 3;
  rent = 30000;
  deposit = 50000;
}

abbrev made :
    Result CreateError (NewBooking × Entries) → NewBooking × Entries → NewBooking × Entries
made (ok c) d = c
made (err e) d = d

abbrev nobody : NewBooking
nobody = record {
  id = 0;
  borrower = 0;
  lender = 0;
  starts_on = pos 0;
  ends_on = pos 0;
  days = pos 0;
  rent = pos 0;
  fee = pos 0;
  deposit = 0;
  credit = pos 0;
  total = pos 0;
  status = requested;
  expires_at = none;
}

abbrev asked : NewBooking × Entries
asked =
    made
      (request_listing windows answers drill 7 2 (pos (10 * day_ms))
        (add_days (pos (10 * day_ms)) 2) (pos 0) (pos 5) granted)
      (nobody, [])

request-IsPriced_example :
    let start = pos (10 * day_ms) in
    let q = quote (with_held drill.pricing answers.held) start (add_days start 2) (pos 0) in
    ((3 == 2) ≡ false)
    × (q.available ≡ true)
    × (answers.open_bookings ≡ 0)
    × IsQuoted q 7 2 3 start (add_days start 2) asked.0
    × (q.rent +ℤ q.weekly_discount ≡ pos (3 * 15000))
    × (q.deposit ≡ 50000)
    × IsPriced asked.0 granted asked.1
unfolding request_listing create_with_credit quote add_days hold_credit credit_balance
    credit_limit_for ◌+ℤ◌ ◌-ℤ◌
request-IsPriced_example =
    request-IsPriced windows answers drill 7 2 2 (pos (10 * day_ms)) (pos 0) (pos 5) granted asked.1
      asked.0 (omega arith) (omega arith) refl
