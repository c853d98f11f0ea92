-- ===== src/Pricing/Tests.antt =====
-- A concrete listing and a quote for it.
use nivra.Prelude.{◌*◌, ◌≡◌, refl, [], ◌∷◌}
use nivra.Prelude.Int.{pos, ◌+ℤ◌, ◌-ℤ◌}
use nivra.Time.{day_ms}
use nivra.Pricing.Quotes.{PricingInput, quote}

abbrev drill : PricingInput
drill = record {
  price_per_day = 15000;
  weekly_discount_pct = 10;
  deposit = 50000;
  min_days = 1;
  max_days = 30;
  advance_notice_days = 1;
  blocks = record { starts_on = pos (20 * day_ms); ends_on = pos (22 * day_ms) } ∷ [];
}

-- Seven days at 150 rupees less 10 %.
week_is_945 : (quote drill (pos 0) (pos (6 * day_ms)) (pos 0)).rent ≡ pos 94500
unfolding quote ◌+ℤ◌ ◌-ℤ◌
week_is_945 = refl
