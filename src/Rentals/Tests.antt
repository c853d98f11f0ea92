-- ===== src/Rentals/Tests.antt =====
-- A booking at its handover.
use nivra.Prelude.{
  ℕ, ◌+◌, ◌*◌, ◌≤◌, ◌<◌, ◌≡◌, refl, true, none, some, List, [], ◌∷◌, length, filter, arith,
}
use nivra.Prelude.Int.{pos, ◌≤ℤ◌, ◌<ℤ◌, ◌+ℤ◌, ◌-ℤ◌}
use nivra.Time.{handover_opens_at, rental_start, rental_end}
use nivra.Bookings.Status.{confirmed, active, is}
use nivra.Bookings.Rules.{next_status}
use nivra.Bookings.Policy.{Windows}
use nivra.Machine.Rows.{Booking}
use nivra.Rentals.Handover.{
  Rental, Stage, handover, hand_over, check_code, code_for, party_for, is_lender, distinct,
}
use nivra.Rentals.Kept.{start, more, hands, reach-kept}
use nivra.Rentals.Lockout.{Try, expires, tried, answers, is_wrong, is_expiry, codes_locked}
use nivra.Rentals.Proof.{hand_over-ok}

abbrev windows : Windows
windows = record { request_min = 60; docs_min = 60; payment_min = 30 }

abbrev booking : Booking
booking = record {
  id = 7;
  borrower = 1;
  lender = 2;
  status = confirmed;
  required_docs = 0;
  starts_on = pos 864000000;
  ends_on = pos 864000000;
  handed_over_at = none;
  returned_at = none;
  completed_at = none;
  expires_at = none;
  closed_at = none;
  credit = 0;
  deposit = 50000;
  late_days = 0;
  late_fee = 0;
  kept = 0;
  cancelled_by = none;
}

abbrev rental : Rental
rental = record {
  world = record { booking = booking; shares = []; events = []; credits = [] };
  price_per_day = 10000;
  reports = [];
  dispute = none;
  handover_fails = 2;
  return_fails = 0;
}

abbrev mac : Stage → ℕ
mac s = 5123456

abbrev photos : List ℕ
photos = 31 ∷ 32 ∷ 31 ∷ []

hand_over-ok_example :
    (is_lender (party_for booking 2) ≡ true)
    × (is confirmed confirmed ≡ true)
    × (handover_opens_at (pos 864000000) ≤ℤ pos 864000000)
    × (pos 864000000 <ℤ rental_end (pos 864000000))
    × (123456 ≡ code_for mac handover)
    × (2 < 5)
    × (2 ≤ distinct photos)
    × ((hand_over windows mac rental 2 123456 photos
          (some photos)
          (pos 864000000)).0.world.booking.status
        ≡ active)
unfolding hand_over check_code code_for party_for handover_opens_at rental_start rental_end ◌-ℤ◌
    ◌+ℤ◌ distinct next_status
hand_over-ok_example =
    hand_over-ok windows mac rental 2 123456 photos (some photos) (pos 864000000) refl

reach-kept_example :
    ((hand_over windows mac rental 2 123456 photos
        (some photos)
        (pos 864000000)).0.world.booking.kept
      ≤ (hand_over windows mac rental 2 123456 photos
          (some photos)
          (pos 864000000)).0.world.booking.deposit)
    × ((hand_over windows mac rental 2 123456 photos
          (some photos)
          (pos 864000000)).0.world.booking.late_fee
        ≤ (hand_over windows mac rental 2 123456 photos
            (some photos)
            (pos 864000000)).0.world.booking.deposit)
reach-kept_example =
    reach-kept windows rental
      (hand_over windows mac rental 2 123456 photos (some photos) (pos 864000000)).0 refl refl
      (more start (hands mac 2 123456 photos (some photos) (pos 864000000)))

abbrev tries : List Try
tries = tried 1 ∷ tried 2 ∷ tried 3 ∷ tried 4 ∷ tried 5 ∷ tried 6 ∷ expires ∷ tried 7 ∷ []

six_compared : length (filter is_wrong (answers 123456 0 tries)) ≡ 6
unfolding answers check_code
six_compared = refl

codes_locked_example :
    length (filter is_wrong (answers 123456 0 tries)) ≤ 5 + 5 * length (filter is_expiry tries)
codes_locked_example = codes_locked 123456 0 tries (
  omega arith,
  (
    omega arith,
    (omega arith, (omega arith, (omega arith, (omega arith, (tt, (omega arith, tt)))))),
  ),
)
