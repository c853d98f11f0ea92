-- ===== src/Time.antt =====
-- Instants and calendar days, as apps/api/src/modules/listings/listing-rules.ts and the windows of
-- apps/api/src/modules/bookings/booking-rules.ts count them: an instant is `Date.getTime()`, whole
-- milliseconds since 1970 (signed), and a rental date is the instant of its midnight in UTC.
use nivra.Prelude.{ℕ, ◌+◌, ◌-◌, ◌*◌, ◌/◌, if◌then◌else◌}
use nivra.Prelude.Int.{ℤ, pos, pos_part, ◌+ℤ◌, ◌-ℤ◌, ltb_ℤ}

abbrev pub Instant : Type 0
Instant = ℤ

abbrev pub day_ms : ℕ
day_ms = 86400000

abbrev pub hour_ms : ℕ
hour_ms = 3600000

abbrev pub minute_ms : ℕ
minute_ms = 60000

-- India Standard Time is UTC+5:30, all year.
abbrev pub ist_offset_ms : ℕ
ist_offset_ms = 330 * 60000

abbrev pub claim_window_hours : ℕ
claim_window_hours = 24

abbrev pub not_returned_after_days : ℕ
not_returned_after_days = 2

unfoldable pub add_days : Instant → ℕ → Instant
add_days date days = date +ℤ pos (days * day_ms)

unfoldable pub rental_start : Instant → Instant
rental_start starts_on = starts_on -ℤ pos ist_offset_ms

unfoldable pub rental_end : Instant → Instant
rental_end ends_on = ends_on +ℤ pos day_ms -ℤ pos ist_offset_ms

unfoldable pub handover_opens_at : Instant → Instant
unfolding rental_start
handover_opens_at starts_on = rental_start starts_on -ℤ pos day_ms

unfoldable pub claim_until : Instant → Instant
claim_until returned_at = returned_at +ℤ pos (claim_window_hours * hour_ms)

-- `late > 0 ? Math.ceil(late / DAY_MS) : 0`; the quotient is taken of a positive number only.
unfoldable pub late_days_for : Instant → Instant → ℕ
unfolding rental_end
late_days_for ends_on returned_at =
    let late = returned_at -ℤ rental_end ends_on in
    if ltb_ℤ (pos 0) late then (pos_part late + (day_ms - 1)) / day_ms else 0
