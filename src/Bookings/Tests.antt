-- ===== src/Bookings/Tests.antt =====
-- Concrete bookings, and runs of the rules on them.
use nivra.Prelude.{◌*◌, ◌≡◌, refl, true, false, some}
use nivra.Prelude.Int.{pos, ◌+ℤ◌, ◌-ℤ◌}
use nivra.Time.{Instant, day_ms, minute_ms}
use nivra.Bookings.Status.{
  Status, requested, awaiting_payment, confirmed, active, returned, expired, borrower, lender,
  party, system, expire, hand_over, mark_returned, confirm_payment,
}
use nivra.Bookings.Rules.{BookingState, next_status}
use nivra.Bookings.Policy.{Windows, Paid, refund_for, deadline_for}
use nivra.Bookings.Diagram.{Edge, hand, next_status-Edge, Edge-Realised}

abbrev booking_in : Status → BookingState
booking_in s = record {
  status = s;
  requires_docs = true;
  docs_submitted = false;
  starts_on = some (pos (3 * day_ms));
  ends_on = some (pos (4 * day_ms));
  returned_at = some (pos (5 * day_ms));
}

abbrev windows : Windows
windows = record { request_min = 1440; docs_min = 720; payment_min = 30 }

abbrev paid_booking : Paid
paid_booking = record { rent = 30001; fee = 0; deposit = 50000; starts_on = pos (3 * day_ms) }

expires_from_request : next_status expire system (booking_in requested) (pos 0) ≡ some expired
unfolding next_status
expires_from_request = refl

next_status-Edge_example : Edge expire system requested expired
next_status-Edge_example =
    next_status-Edge expire system (booking_in requested) (pos 0) expires_from_request

Edge-Realised_example :
    (b : BookingState) × (now : Instant) × (b.status ≡ confirmed)
    × (next_status hand_over (party lender) b now ≡ some active)
Edge-Realised_example = Edge-Realised hand

pays : next_status confirm_payment system (booking_in awaiting_payment) (pos 0) ≡ some confirmed
unfolding next_status
pays = refl

returns : next_status mark_returned (party borrower) (booking_in active) (pos 0) ≡ some returned
unfolding next_status
returns = refl

pays_within :
    deadline_for (booking_in awaiting_payment) (pos (3 * day_ms)) (pos 0) windows
    ≡ some (pos (30 * minute_ms))
unfolding deadline_for ◌+ℤ◌
pays_within = refl

-- Half of an odd rent is rounded up.
half_rent_is_15001 : (refund_for paid_booking borrower (pos day_ms)).rent ≡ 15001
unfolding refund_for ◌+ℤ◌ ◌-ℤ◌
half_rent_is_15001 = refl
