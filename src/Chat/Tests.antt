-- ===== src/Chat/Tests.antt =====
-- A chat with one offer.
use nivra.Prelude.{◌≤◌, refl, true, false, none, []}
use nivra.Prelude.Int.{pos}
use nivra.Pricing.Quotes.{PricingInput}
use nivra.Chat.Offers.{Offer, Offers, Answers, Terms, pending, create, accept}
use nivra.Chat.Open.{count, waits, agreed}
use nivra.Chat.Deals.{start, more, creates, accepts, reach-one_deal}

abbrev pricing : PricingInput
pricing = record {
  price_per_day = 10000;
  weekly_discount_pct = 0;
  deposit = 50000;
  min_days = 1;
  max_days = 30;
  advance_notice_days = 0;
  blocks = [];
}

abbrev answers : Answers
answers = record {
  takes_part = true;
  is_blocked = false;
  listing = pricing;
  is_live = true;
  has_open_booking = false;
  within_limit = true;
  today = pos 0;
}

abbrev terms : Terms
terms = record {
  starts_on = pos 864000000;
  ends_on = pos 950400000;
  days = 2;
  price_per_day = 9000;
}

abbrev offered : Offers
offered = (create [] answers 4 1 terms 50000 (pos 0)).0

reach-one_deal_example :
    (count waits (accept offered answers 4 2 true (pos 9)).0 ≤ 1)
    × (count agreed (accept offered answers 4 2 true (pos 9)).0 ≤ 1)
reach-one_deal_example = reach-one_deal (
    more (more start (creates answers 4 1 terms 50000 (pos 0) refl))
      (accepts answers 4 2 true (pos 9)))

abbrev open_offer : Offer
open_offer = record {
  id = 4;
  proposed_by = 1;
  starts_on = pos 864000000;
  ends_on = pos 950400000;
  price_per_day = 9000;
  rent = 18000;
  deposit = 50000;
  status = pending;
  parent = none;
  expires_at = pos 172800000;
}
