-- ===== src/Bookings/Refunding.antt =====
-- The cancellation policy (docs/PRD.md, section 7; `refundFor` of booking-rules.ts).
use nivra.Prelude.{◌+◌, ◌*◌, ◌/◌, ◌≤◌, ◌≡◌, ◌≢◌, ◌⊎◌, arith}
use nivra.Prelude.Int.{pos, ◌-ℤ◌, ◌≤ℤ◌, ◌<ℤ◌, -ℤ_parts}
use nivra.Time.{Instant, hour_ms, ist_offset_ms, rental_start}
use nivra.Bookings.Status.{Party, borrower, lender, admin}
use nivra.Bookings.Policy.{Paid, refund_for}

-- A refund never exceeds what was paid, part by part, always has the whole deposit, and its total
-- is the sum of its parts.
pub refund_for_bounds :
    (b : Paid) (p : Party) (now : Instant)
    → let r = refund_for b p now in
      (r.rent ≤ b.rent)
      × (r.fee ≤ b.fee)
      × (r.deposit ≡ b.deposit)
      × (r.total ≡ r.rent + r.fee + r.deposit)
unfolding refund_for
refund_for_bounds b p now = ground arith

-- Cancelling later never refunds more, whoever cancels.
refund_for_antitone :
    (b : Paid) (p : Party) (now later : Instant)
    → now ≤ℤ later
    → (refund_for b p later).total ≤ (refund_for b p now).total
unfolding refund_for
refund_for_antitone b borrower now later h =
    ground
      (arith, -ℤ_parts (rental_start b.starts_on) now, -ℤ_parts (rental_start b.starts_on) later)
refund_for_antitone b lender now later h = omega arith
refund_for_antitone b admin now later h = omega arith

-- A borrower's refund by the time left before midnight IST of the first day: everything with more
-- than 48 hours left; half the rent (rounded up) and no fee from 48 down to 24 hours; only the
-- deposit with less than 24 hours.
refund_for_borrower :
    (b : Paid) (now : Instant)
    → let left = b.starts_on -ℤ pos ist_offset_ms -ℤ now in
      let r = refund_for b borrower now in
      ((pos (48 * hour_ms) <ℤ left) × (r.total ≡ b.rent + b.fee + b.deposit))
      ⊎ ((left ≤ℤ pos (48 * hour_ms))
          × (pos (24 * hour_ms) ≤ℤ left)
          × (r.total ≡ (b.rent + 1) / 2 + b.deposit))
      ⊎ ((left <ℤ pos (24 * hour_ms)) × (r.total ≡ b.deposit))
unfolding refund_for rental_start
refund_for_borrower b now = ground arith

-- When the lender or Nivra cancels, the borrower gets everything back at any time.
refund_for_others :
    (b : Paid) (p : Party) (now : Instant)
    → p ≢ borrower
    → (refund_for b p now).total ≡ b.rent + b.fee + b.deposit
unfolding refund_for
refund_for_others b p now h = ground arith
