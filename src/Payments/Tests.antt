-- ===== src/Payments/Tests.antt =====
-- A booking of 300 rupees' rent, 15 of fee and 500 of deposit, with 100 of credit.
use nivra.Prelude.{ℕ, ◌-◌, ◌≡◌, ◌⊎◌, ◌<◌, refl, true, none, some, List, [], ◌∷◌, ok, err, arith}
use nivra.Prelude.Int.{pos, ◌-ℤ◌}
use nivra.Ledger.{gateway, deposit_held, lender_payable, account_balance, cash_of}
use nivra.Bookings.Status.{Status, awaiting_payment, confirmed, completed, expired, cancelled}
use nivra.Bookings.Policy.{Windows, refund_for}
use nivra.Credits.Entries.{
  Entries, entry, hold, release, credit_back_for, release_credit, release_hold,
}
use nivra.Machine.Rows.{Booking, World}
use nivra.Refunds.Rows.{Store, PaymentStatus, created, captured, counted}
use nivra.Refunds.Service.{accepts as takes, too_large, refundable}
use nivra.Payouts.Transfers.{Transfer, accepts}
use nivra.Payouts.Booking.{share}
use nivra.Payouts.Sent.{held_rent}
use nivra.Payments.Rows.{activated, Money, Outside, of_refund}
use nivra.Payments.Capture.{
  capture, is_payable, webhook, payment_captured_event, payment_failed_event, duplicate, Checkout,
}
use nivra.Payments.Cancelling.{settle, refund_cancelled, policy_refund, give_back}
use nivra.Payments.Confirming.{capture-confirms, capture-late}
use nivra.Payments.Once.{capture_again, webhook_again}
use nivra.Payments.Settled.{settle_whole}
use nivra.Payments.Cancelled.{refund_cancelled_whole}

abbrev windows : Windows
windows = record { request_min = 60; docs_min = 60; payment_min = 30 }

abbrev booking : Status → ℕ → Booking
booking s credit = record {
  id = 7;
  borrower = 1;
  lender = 2;
  status = s;
  required_docs = 0;
  starts_on = pos 864000000;
  ends_on = pos 864000000;
  handed_over_at = none;
  returned_at = none;
  completed_at = none;
  expires_at = none;
  closed_at = none;
  credit = credit;
  deposit = 50000;
  late_days = 0;
  late_fee = 0;
  kept = 20000;
  cancelled_by = none;
}

abbrev held_credit : Entries
held_credit = entry 1 (some 7) (pos 0 -ℤ pos 10000) hold ∷ []

abbrev world : Status → ℕ → World
world s credit = record {
  booking = booking s credit;
  shares = [];
  events = [];
  credits = held_credit;
}

abbrev pay : PaymentStatus → ℕ → Store
pay s amount = record {
  amount = amount;
  status = s;
  booking = 7;
  rent = 30000;
  refunds = [];
  ledger = [];
  asked = [];
}

abbrev money : Status → ℕ → PaymentStatus → List Transfer → Money
money s credit p ts = record {
  order = 40;
  payment_id = none;
  fee = 1500;
  pay = pay p (81500 - credit);
  world = world s credit;
  transfers = ts;
  account = some (record { provider_id = 3; status = activated });
}

abbrev outside : Outside
outside = record {
  windows = windows;
  refund_id = 1;
  refund_reply = takes 55 true;
  transfer_reply = λ t. accepts 66;
  granted = λ t. true;
}

abbrev waiting : Money
waiting = money awaiting_payment 10000 created []

capture-confirms_example :
    let (d', r) = capture outside waiting 40 9 (pos 0) in
    (r ≡ ok tt)
    × (d'.world.booking.status ≡ confirmed)
    × (d'.payment_id ≡ some 9)
    × (d'.pay.status ≡ captured)
    × (d'.pay.refunds ≡ [])
unfolding is_payable
capture-confirms_example = capture-confirms outside waiting 9 (pos 0) refl refl (omega arith)

abbrev late : Money
late = money expired 10000 created []

capture-late_example :
    let (d', r) = capture outside late 40 9 (pos 0) in
    (d'.world ≡ late.world)
    × (((late.world.booking.credit ≡ 0)
          × (r ≡ ok tt)
          × (account_balance d'.pay.ledger gateway ≡ account_balance [] gateway))
        ⊎ ((0 < late.world.booking.credit)
            × (r ≡ err (of_refund (too_large (pos 71500))))
            × (d'.pay.status ≡ captured)
            × (d'.pay.refunds ≡ [])))
unfolding is_payable
capture-late_example =
    capture-late outside late 9 (pos 0) 55 true refl refl refl refl (omega arith) refl

capture_again_example :
    let d' = (capture outside waiting 40 9 (pos 0)).0 in
    capture outside d' 40 12 (pos 1) ≡ (d', ok tt)
unfolding is_payable
capture_again_example =
    capture_again outside outside waiting 9 40 12 (pos 0) (pos 1) refl (omega arith)

webhook_again_example :
    let (seen', d', reply) =
      webhook outside [] waiting true 5 (payment_captured_event 40 9) (pos 0) in
    webhook outside seen' waiting true 5 (payment_failed_event 40) (pos 1)
    ≡ (seen', waiting, duplicate)
webhook_again_example =
    webhook_again outside outside [] waiting waiting 5 (payment_captured_event 40 9)
      (payment_failed_event 40) (pos 0) (pos 1)

abbrev failed_row : Checkout
failed_row = record { order = 40; amount = 71500; status = PaymentStatus.failed }

abbrev returned_item : Money
returned_item = money completed 10000 captured (held_rent 27000 11 1 ∷ [])

settle_whole_example :
    let (d', r) = settle outside returned_item in
    (r ≡ ok tt)
    × (account_balance d'.pay.ledger lender_payable ≡ account_balance [] lender_payable)
    × (account_balance d'.pay.ledger deposit_held ≡ account_balance [] deposit_held -ℤ pos 50000)
    × (settle outside d' ≡ (d', ok tt))
unfolding refundable counted ◌-ℤ◌
settle_whole_example =
    settle_whole outside outside returned_item 27000 11 1 66 55 true refl refl refl refl refl refl
      refl refl refl (omega arith)

abbrev called_off : Money
called_off = money cancelled 10000 captured (held_rent (share 30000) 11 1 ∷ [])

refund_cancelled_whole_example :
    let (d', r) = refund_cancelled outside called_off (pos 0) in
    (r ≡ ok tt)
    × (account_balance d'.pay.ledger lender_payable ≡ account_balance [] lender_payable)
    × (account_balance d'.pay.ledger deposit_held ≡ account_balance [] deposit_held -ℤ pos 50000)
unfolding give_back policy_refund refund_for cash_of refundable counted ◌-ℤ◌ release_credit
    credit_back_for release_hold
refund_cancelled_whole_example =
    refund_cancelled_whole outside called_off (pos 0) 10000
      (entry 1 (some 7) (pos 10000) release ∷ held_credit) 11 1 66 55 true refl refl refl refl refl
      refl refl refl (omega arith) (omega arith) (omega arith)

abbrev going : Money
going = money confirmed 10000 captured []
