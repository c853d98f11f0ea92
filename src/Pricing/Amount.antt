-- ===== src/Pricing/Amount.antt =====
-- The amounts of a quote.
use nivra.Prelude.{◌⊎◌, leb, ℕ, ◌+◌, ◌*◌, ◌/◌, ◌≤◌, ◌<◌, ◌≡◌, refl, Bool-cases, inl, inr, arith}
use nivra.Prelude.Int.{ℤ, pos, negsuc, leb_ℤ, ◌+ℤ◌, ◌≤ℤ◌, int_laws, round_div}
use nivra.Rounding.{share_of}
use nivra.Time.{Instant, add_days}
use nivra.Pricing.Quotes.{PricingInput, quote, rent_for, rental_days, borrower_fee_bps}
use nivra.Pricing.Availability.{rental_days-add_days}

discount_le : (before pct : ℕ) → pct ≤ 100 → (2 * (before * pct) + 100) / 200 ≤ before
discount_le before pct h = grind arith

round_div-pos : (n : ℕ) → round_div (pos n) 100 ≡ pos ((2 * n + 100) / 200)
unfolding round_div ◌+ℤ◌
round_div-pos n = ground arith

rent_for_bounds :
    (price pct n : ℕ)
    → pct ≤ 100
    → let r = rent_for price pct (pos n) in
      (r.rent +ℤ r.discount ≡ pos (n * price))
      × (pos 0 ≤ℤ r.discount)
      × (pos 0 ≤ℤ r.rent)
      × (n < 7 → r.rent ≡ pos (n * price))
unfolding rent_for
rent_for_bounds price pct n h = elim (Bool-cases (leb_ℤ (pos 7) (pos n))) [
  | inl weekly ↦
      rw (weekly, round_div-pos (n * price * pct))
        (
          omega int_laws,
          omega arith,
          omega (int_laws, discount_le (n * price) pct h),
          λ few. absurd (ground arith),
        )
  | inr short ↦ rw short (omega int_laws, omega arith, omega int_laws, λ few. omega int_laws)
]

share_zero : (x : ℤ) → share_of x 0 ≡ pos 0
unfolding share_of ◌+ℤ◌
share_zero (pos n) = ground arith
share_zero (negsuc n) = ground arith

-- The fields of a quote as calls of the parts.
quote_parts :
    (input : PricingInput) (start end today : Instant)
    → let q = quote input start end today in
      let r = rent_for input.price_per_day input.weekly_discount_pct (rental_days start end) in
      (q.rent ≡ r.rent)
      × (q.weekly_discount ≡ r.discount)
      × (q.total ≡ r.rent +ℤ share_of r.rent borrower_fee_bps +ℤ pos input.deposit)
unfolding quote
quote_parts input start end today = (refl, refl, refl)

-- A rental from a day to the day `n` days later costs the daily price for `n + 1` days, less a
-- discount that is never negative nor more than that price, and that there is none of below 7
-- days; the service fee is 0, and the total is the rent and the deposit.
pub quote_amounts :
    (input : PricingInput) (start today : Instant) (n : ℕ)
    → input.weekly_discount_pct ≤ 100
    → let q = quote input start (add_days start n) today in
      (q.rent +ℤ q.weekly_discount ≡ pos ((n + 1) * input.price_per_day))
      × (pos 0 ≤ℤ q.weekly_discount)
      × (pos 0 ≤ℤ q.rent)
      × ((6 ≤ n) ⊎ (q.rent ≡ pos ((n + 1) * input.price_per_day)))
      × (q.total ≡ q.rent +ℤ pos input.deposit)
quote_amounts input start today n h =
    let parts = quote_parts input start (add_days start n) today in
    let b = rent_for_bounds input.price_per_day input.weekly_discount_pct (n + 1) h in
    rw (parts.0, parts.1, parts.2, rental_days-add_days start n, share_zero)
      (
        b.0,
        b.1,
        b.2,
        elim (Bool-cases (leb 6 n)) [
          | inl week ↦ inl (ground arith)
          | inr few ↦ inr (b.3 (ground arith))
        ],
        omega int_laws,
      )
