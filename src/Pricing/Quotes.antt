-- ===== src/Pricing/Quotes.antt =====
-- apps/api/src/modules/listings/pricing.ts. Prices, percentages and day limits are not negative in
-- the database; the number of days is an integer, since the source takes any two dates.
use nivra.Prelude.{ℕ, Bool, ◌&&◌, Option, none, some, List, any, not, is_some, if◌then◌else◌}
use nivra.Prelude.Int.{ℤ, pos, ◌+ℤ◌, ◌-ℤ◌, ltb_ℤ, leb_ℤ, round_div, mul_ℕ}
use nivra.Rounding.{share_of}
use nivra.Time.{Instant, day_ms, add_days}

abbrev pub borrower_fee_bps : ℕ
borrower_fee_bps = 0

pub data UnavailableReason : Type 0 where
  blocked too_short too_long not_enough_notice : UnavailableReason

pub record DateRange : Type 0 where
  pub starts_on : Instant
  pub ends_on : Instant

pub record PricingInput : Type 0 where
  pub price_per_day : ℕ
  pub weekly_discount_pct : ℕ
  pub deposit : ℕ
  pub min_days : ℕ
  pub max_days : ℕ
  pub advance_notice_days : ℕ
  pub blocks : List DateRange

pub record Quote : Type 0 where
  pub days : ℤ
  pub price_per_day : ℕ
  pub rent_before_discount : ℤ
  pub weekly_discount : ℤ
  pub rent : ℤ
  pub fee : ℤ
  pub deposit : ℕ
  pub total : ℤ
  pub available : Bool
  pub unavailable_reason : Option UnavailableReason

-- `Math.round((end - start) / 86_400_000) + 1`: both days are counted.
unfoldable pub rental_days : Instant → Instant → ℤ
unfolding round_div
rental_days start end = round_div (end -ℤ start) day_ms +ℤ pos 1

pub record Rent : Type 0 where
  pub before : ℤ
  pub discount : ℤ
  pub rent : ℤ

-- The weekly discount applies from 7 days on.
unfoldable pub rent_for : ℕ → ℕ → ℤ → Rent
unfolding round_div mul_ℕ
rent_for price_per_day weekly_discount_pct days =
    let before = mul_ℕ days price_per_day in
    let discount =
      if leb_ℤ (pos 7) days then round_div (mul_ℕ before weekly_discount_pct) 100 else pos 0 in
    record { before = before; discount = discount; rent = before -ℤ discount }

-- `b.startsOn <= end && b.endsOn >= start`.
abbrev pub overlaps : Instant → Instant → DateRange → Bool
overlaps start end b = leb_ℤ b.starts_on end && leb_ℤ start b.ends_on

unfoldable pub reason_for :
    PricingInput → ℤ → Instant → Instant → Instant → Option UnavailableReason
unfolding add_days
reason_for input days start end today =
    if ltb_ℤ days (pos input.min_days)
    then some too_short
    else if ltb_ℤ (pos input.max_days) days
    then some too_long
    else if ltb_ℤ start (add_days today input.advance_notice_days)
    then some not_enough_notice
    else if any (overlaps start end) input.blocks
    then some blocked
    else none

unfoldable pub quote : PricingInput → Instant → Instant → Instant → Quote
unfolding rental_days rent_for reason_for share_of
quote input start end today =
    let days = rental_days start end in
    let r = rent_for input.price_per_day input.weekly_discount_pct days in
    let fee = share_of r.rent borrower_fee_bps in
    let reason = reason_for input days start end today in
    record {
      days = days;
      price_per_day = input.price_per_day;
      rent_before_discount = r.before;
      weekly_discount = r.discount;
      rent = r.rent;
      fee = fee;
      deposit = input.deposit;
      total = r.rent +ℤ fee +ℤ pos input.deposit;
      available = not (is_some reason);
      unavailable_reason = reason;
    }
