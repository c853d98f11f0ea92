-- ===== src/Reviews/Tests.antt =====
-- A borrower reviews, then the lender.
use nivra.Prelude.{none, some, []}
use nivra.Prelude.Int.{pos}
use nivra.Bookings.Status.{completed}
use nivra.Machine.Rows.{Booking}
use nivra.Reviews.Blind.{write_review}
use nivra.Reviews.Published.{Fair, start, writes, reach-Fair}

abbrev booking : Booking
booking = record {
  id = 7;
  borrower = 1;
  lender = 2;
  status = completed;
  required_docs = 0;
  starts_on = pos 0;
  ends_on = pos 0;
  handed_over_at = some (pos 0);
  returned_at = some (pos 0);
  completed_at = some (pos 86400000);
  expires_at = none;
  closed_at = some (pos 86400000);
  credit = 0;
  deposit = 50000;
  late_days = 0;
  late_fee = 0;
  kept = 0;
  cancelled_by = none;
}

reach-Fair_example :
    Fair booking
      (write_review booking (write_review booking [] 1 5 (pos 90000000)).0 2 4 (pos 95000000)).0
reach-Fair_example = reach-Fair (writes 2 4 (pos 95000000) (writes 1 5 (pos 90000000) start))
