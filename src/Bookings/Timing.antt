-- ===== src/Bookings/Timing.antt =====
-- The time windows of a booking: what each date-dependent step of booking-rules.ts allows, stated
-- by arithmetic on instants.
use nivra.Prelude.{◌⊎◌, ◌<◌, ℕ, ◌+◌, ◌*◌, ◌-◌, ◌≤◌, ◌≡◌, ◌↔◌, ◌≢◌, ◌/◌, if◌then◌else◌, some, arith}
use nivra.Prelude.Int.{ℤ, pos, negsuc, pos_part, ltb_ℤ, ◌+ℤ◌, ◌-ℤ◌, ◌≤ℤ◌, ◌<ℤ◌, int_laws, +ℤ_parts}
use nivra.Time.{Instant, day_ms, hour_ms, minute_ms, ist_offset_ms, rental_end, late_days_for}
use nivra.Bookings.Status.{
  confirmed, active, returned, disputed, lender, party, hand_over, open_dispute,
}
use nivra.Bookings.Rules.{BookingState, next_status}
use nivra.Bookings.Policy.{Windows, deadline_for, late_fee_for, max_keepable}

module _ (b : BookingState) (s e now : Instant) (starts : b.starts_on ≡ some s)
    (ends : b.ends_on ≡ some e) (waiting : b.status ≡ confirmed) where
  -- On a confirmed booking the lender can confirm the handover exactly from one day before
  -- midnight IST of the first day until midnight IST after the last day.
  pub hand_over_window : (next_status hand_over (party lender) b now ≡ some active) ↔ (
      (s -ℤ pos ist_offset_ms -ℤ pos day_ms ≤ℤ now) × (now <ℤ e +ℤ pos day_ms -ℤ pos ist_offset_ms))
  unfolding next_status
  hand_over_window = (λ h. ground arith, λ h. ground arith)

-- A lender's claim on a returned booking is allowed exactly until 24 hours after the return.
claim_window :
    (b : BookingState) (r now : Instant)
    → b.returned_at ≡ some r
    → b.status ≡ returned
    → (next_status open_dispute (party lender) b now ≡ some disputed)
      ↔ (now <ℤ r +ℤ pos (24 * hour_ms))
unfolding next_status
claim_window b r now back waiting = (λ h. ground arith, λ h. ground arith)

-- A claim for an item that is still out is allowed exactly from two days after the rental's end.
overdue_window :
    (b : BookingState) (e now : Instant)
    → b.ends_on ≡ some e
    → b.status ≡ active
    → (next_status open_dispute (party lender) b now ≡ some disputed)
      ↔ (rental_end e +ℤ pos (2 * day_ms) ≤ℤ now)
unfolding next_status
overdue_window b e now ends out = (λ h. ground arith, λ h. ground arith)

-- Every deadline but that of a returned booking is at most the end of the first rental day (in
-- UTC), and a step that begins before that has its deadline no earlier than it begins.
deadline_for_bounds :
    (b : BookingState) (s now : Instant) (w : Windows) {d : Instant}
    → deadline_for b s now w ≡ some d
    → b.status ≢ returned
    → (d ≤ℤ s +ℤ pos day_ms) × ((s +ℤ pos day_ms ≤ℤ now) ⊎ (now ≤ℤ d))
unfolding deadline_for
deadline_for_bounds b s now w h u = ground (
  arith,
  +ℤ_parts now (pos (w.request_min * minute_ms)),
  +ℤ_parts now (pos (w.docs_min * minute_ms)),
  +ℤ_parts now (pos (w.payment_min * minute_ms)),
)

-- `late > 0 ? Math.ceil(late / DAY_MS) : 0` against a number of days.
ceil_days-le :
    (late : ℤ) (k : ℕ)
    → ((if ltb_ℤ (pos 0) late then (pos_part late + (day_ms - 1)) / day_ms else 0) ≤ k)
      ↔ (late ≤ℤ pos (k * day_ms))
ceil_days-le (pos n) k = (λ h. ground arith, λ h. ground arith)
ceil_days-le (negsuc n) k = (λ h. ground arith, λ h. ground arith)

-- The late days are the least number of days that covers the delay: an item is at most `k` days
-- late exactly if it came back by `k` days after the rental's end.
late_days_for-le :
    (e r : Instant) (k : ℕ) → (late_days_for e r ≤ k) ↔ (r ≤ℤ rental_end e +ℤ pos (k * day_ms))
unfolding late_days_for
late_days_for-le e r k = (
  λ h. omega (int_laws, (ceil_days-le (r -ℤ rental_end e) k).0 h),
  λ h. (ceil_days-le (r -ℤ rental_end e) k).1 (omega int_laws),
)

-- The late fee and whatever an admin may still award on top stay within the deposit, and the fee
-- is one daily rate for each late day as long as the deposit covers it.
late_fee_bounds :
    (days price deposit award : ℕ)
    → award ≤ max_keepable deposit (late_fee_for days price deposit)
    → (late_fee_for days price deposit + award ≤ deposit)
      × ((deposit < days * price) ⊎ (late_fee_for days price deposit ≡ days * price))
unfolding late_fee_for max_keepable
late_fee_bounds days price deposit award h = omega arith
