-- ===== src/Acting/Tests.antt =====
-- A paid booking that is cancelled, and a sweep over three bookings.
use nivra.Prelude.{
  ℕ, ◌≡◌, refl, false, true, none, some, List, [], ◌∷◌, any, filter, length, ok, err, arith, Option,
}
use nivra.Prelude.Int.{pos, ◌-ℤ◌}
use nivra.Time.{Instant}
use nivra.Ledger.{cash_of}
use nivra.Bookings.Status.{
  Status, requested, awaiting_payment, confirmed, returned, declined, is_paid,
}
use nivra.Bookings.Rules.{next_status}
use nivra.Bookings.Policy.{Windows}
use nivra.Credits.Entries.{entry, hold}
use nivra.Machine.Rows.{World}
use nivra.Refunds.Rows.{captured}
use nivra.Payments.Rows.{activated, Money}
use nivra.Payments.Capture.{put_world}
use nivra.Payments.Cancelling.{policy_refund, give_back, refund_amounts}
use nivra.Payments.Preview.{cancel_preview}
use nivra.Acting.Calls.{
  not_allowed, accept, decline, cancel, is_overdue, expire_due, has_open_bookings,
}
use nivra.Acting.Promised.{preview-cancel}
use nivra.Acting.Swept.{expire_due-clears}

abbrev windows : Windows
windows = record { request_min = 60; docs_min = 60; payment_min = 30 }

abbrev world : Status → Option Instant → World
world s expires_at = record {
  booking = record {
    id = 7;
    borrower = 1;
    lender = 2;
    status = s;
    required_docs = 0;
    starts_on = pos 864000000;
    ends_on = pos 864000000;
    handed_over_at = none;
    returned_at = none;
    completed_at = none;
    expires_at = expires_at;
    closed_at = none;
    credit = 10000;
    deposit = 50000;
    late_days = 0;
    late_fee = 0;
    kept = 20000;
    cancelled_by = none;
  };
  shares = [];
  events = [];
  credits = entry 1 (some 7) (pos 0 -ℤ pos 10000) hold ∷ [];
}

abbrev going : Money
going = record {
  order = 40;
  payment_id = some 9;
  fee = 1500;
  pay = record {
    amount = 71500;
    status = captured;
    booking = 7;
    rent = 30000;
    refunds = [];
    ledger = [];
    asked = [];
  };
  world = world confirmed none;
  transfers = [];
  account = some (record { provider_id = 3; status = activated });
}

abbrev stopped : World
unfolding cancel
stopped = (cancel windows going.world 1 (pos 0)).0

preview-cancel_example :
    let r = policy_refund (put_world going stopped) (pos 9) in
    (back : ℕ) × ((give_back stopped.booking stopped.credits r.rent).0 ≡ pos back)
    × (cancel_preview going 1 (pos 0)
        ≡ some (record {
          refund = cash_of (refund_amounts r) back;
          rent = r.rent;
          fee = r.fee;
          deposit = r.deposit;
          credit_back = pos back;
          tier = some r.tier;
        }))
unfolding is_paid ◌-ℤ◌ cancel next_status
preview-cancel_example =
    preview-cancel windows going stopped 1 (pos 0) (pos 9)
      (entry 1 (some 7) (pos 0 -ℤ pos 10000) hold) refl refl refl refl refl refl

abbrev waiting : List World
waiting =
    world returned (some (pos 20))
    ∷ world requested (some (pos 80))
    ∷ world awaiting_payment (some (pos 50))
    ∷ []

expire_due-clears_example :
    (any (is_overdue (pos 60)) (expire_due windows waiting (pos 60) (pos 61)).0 ≡ false)
    × ((expire_due windows waiting (pos 60) (pos 61)).1
        ≡ ok (length (filter (is_overdue (pos 60)) waiting)))
expire_due-clears_example = expire_due-clears windows waiting (pos 60) (pos 61) (omega arith)

sweep_two : (expire_due windows waiting (pos 60) (pos 61)).1 ≡ ok 2
unfolding expire_due next_status
sweep_two = refl

lender_declines :
    let (d, r) = decline windows (world requested none) 2 (pos 3) in
    (r ≡ ok tt) × (d.booking.status ≡ declined)
unfolding decline next_status
lender_declines = (refl, refl)

borrower_accepts : (accept windows (world requested none) 1 (pos 3)).1 ≡ err not_allowed
unfolding accept next_status
borrower_accepts = refl

lender_has_open : (has_open_bookings waiting 2 ≡ true) × (has_open_bookings waiting 3 ≡ false)
unfolding has_open_bookings
lender_has_open = (refl, refl)
