-- ===== src/Payments/Capture.antt =====
-- Checkout, capture and webhooks of PaymentsService. A call of the state machine is followed by the
-- money listener, whose errors are caught and logged there.
use nivra.Prelude.{
  ℕ, Bool, true, false, not, ◌&&◌, ◌||◌, Option, none, some, List, ◌∷◌, map, find, any, Result, ok,
  err, ◌==◌, if◌then◌else◌,
}
use nivra.Prelude.Int.{leb_ℤ}
use nivra.Time.{Instant}
use nivra.Ledger.{Ledger, Unbalanced, post, capture_postings, payment_captured}
use nivra.Bookings.Status.{Status, awaiting_payment, is, system, confirm_payment}
use nivra.Machine.Rows.{Booking, EventType, World}
use nivra.Machine.Transition.{Options, no_patch, transition_row, TransitionError}
use nivra.Refunds.Rows.{PaymentStatus, created, captured, failed, late_payment}
use nivra.Refunds.Service.{commission_bps, create_parts}
use nivra.Refunds.Service as RefundService
use nivra.Payouts.Transfers.{Transfer}
use nivra.Payouts.Transfers as Transfers
use nivra.Payouts.Booking.{send_waiting}
use nivra.Payments.Rows.{
  AccountStatus, activated, Account, Money, Outside, MoneyError, of_posting, of_transition, Run,
  done, bank_of, book_of, put_book, put_refund, amounts_of,
}
use nivra.Payments.Cancelling.{on_booking_changed}

-- Neither captured nor refunded.
unfoldable pub is_payable : PaymentStatus → Bool
is_payable created = true
is_payable failed = true
is_payable s = false

abbrev pub captured_row : Money → ℕ → Ledger → Money
captured_row d payment_id g = record d {
  payment_id = some payment_id;
  pay = record d.pay { status = captured; ledger = g };
}

abbrev pub confirm_options : Options
confirm_options = record {
  patch = no_patch;
  in_tx = λ shares. ok shares;
  only_if = λ b. is b.status awaiting_payment;
}

-- Paid too late: everything that the booking cost goes back.
unfoldable pub refund_late : Outside → Money → Run
unfolding create_parts
refund_late o d =
    put_refund d (create_parts d.pay o.refund_id late_payment (amounts_of d) 0 o.refund_reply)

abbrev pub put_world : Money → World → Money
put_world d x = record d { world = x }

-- What follows the transaction of `capture`: the booking is confirmed, or the payment refunded.
unfoldable pub confirmed : Outside → Money → Instant → Result TransitionError (Option World) → Run
unfolding refund_late on_booking_changed
confirmed o d now (err e) = (d, err (of_transition e))
confirmed o d now (ok none) = refund_late o d
confirmed o d now (ok (some x)) =
    done (on_booking_changed o EventType.paid d.world.booking.status (put_world d x) now).0

unfoldable pub posted : Outside → Money → ℕ → Instant → Result Unbalanced Ledger → Run
unfolding confirmed transition_row
posted o d payment_id now (err e) = (d, err (of_posting e))
posted o d payment_id now (ok g) =
    confirmed o (captured_row d payment_id g) now
      (transition_row o.windows d.world confirm_payment system confirm_options now)

-- `capture`, of the payment of the named order.
unfoldable pub capture : Outside → Money → ℕ → ℕ → Instant → Run
unfolding is_payable posted post capture_postings
capture o d order payment_id now =
    if not (order == d.order) || not (is_payable d.pay.status)
    then done d
    else posted o d payment_id now (
        post d.pay.ledger payment_captured d.pay.booking (some payment_id)
          (capture_postings (amounts_of d) d.world.booking.credit commission_bps))

abbrev is_created : PaymentStatus → Bool
is_created created = true
is_created s = false

-- `markFailed`.
unfoldable pub mark_failed : Money → ℕ → Money
mark_failed d order =
    if order == d.order && is_created d.pay.status
    then record d { pay = record d.pay { status = failed } }
    else d

-- The events that the provider sends, with what `apply` reads of their payload.
pub data WebhookEvent : Type 0 where
  payment_captured_event : ℕ → ℕ → WebhookEvent
  payment_failed_event : ℕ → WebhookEvent
  refund_event : ℕ → Bool → WebhookEvent
  transfer_failed_event : ℕ → WebhookEvent
  account_event : ℕ → AccountStatus → WebhookEvent
  other_event : WebhookEvent

abbrev has_provider_id : ℕ → Transfer → Bool
has_provider_id ref t = elim t.provider_id [ none ↦ false | some x ↦ x == ref ]

abbrev fail_transfer : ℕ → Transfer → Transfer
fail_transfer ref t = if has_provider_id ref t then record t { status = Transfers.failed } else t

abbrev is_account : ℕ → Option Account → Bool
is_account ref none = false
is_account ref (some a) = a.provider_id == ref

abbrev set_account : Money → ℕ → AccountStatus → Money
set_account d ref s = record d { account = some (record { provider_id = ref; status = s }) }

-- `accountChanged` of PayoutsService.
unfoldable pub account_changed : Outside → Money → ℕ → AccountStatus → Run
unfolding send_waiting
account_changed o d ref activated =
    if is_account ref d.account
    then (let d' = set_account d ref activated in
        put_book d' (send_waiting (book_of d') (bank_of d' o)))
    else done d
account_changed o d ref s = if is_account ref d.account then done (set_account d ref s) else done d

-- `apply`.
unfoldable pub apply : Outside → Money → WebhookEvent → Instant → Run
unfolding capture mark_failed RefundService.settle account_changed
apply o d (payment_captured_event order payment_id) now = capture o d order payment_id now
apply o d (payment_failed_event order) now = done (mark_failed d order)
apply o d (refund_event ref processed) now =
    done (record d { pay = RefundService.settle d.pay ref processed })
apply o d (transfer_failed_event ref) now =
    done (record d { transfers = map (fail_transfer ref) d.transfers })
apply o d (account_event ref s) now = account_changed o d ref s
apply o d other_event now = done d

-- A row of `webhook_events`.
pub record Delivery : Type 0 where
  pub event : ℕ
  pub processed : Bool

pub data WebhookReply : Type 0 where
  applied duplicate invalid_signature : WebhookReply
  thrown : MoneyError → WebhookReply

abbrev pub is_delivery : ℕ → Delivery → Bool
is_delivery id v = v.event == id

abbrev pub delivered : ℕ → List Delivery → Run → List Delivery × Money × WebhookReply
delivered id seen (d, err e) = (record { event = id; processed = false } ∷ seen, d, thrown e)
delivered id seen (d, ok u) = (record { event = id; processed = true } ∷ seen, d, applied)

-- `webhook`: `genuine` is what the provider's signature check answers. The row of the event is
-- written before the event is applied, and stays when that throws.
unfoldable pub webhook :
    Outside
    → List Delivery
    → Money
    → Bool
    → ℕ
    → WebhookEvent
    → Instant
    → List Delivery × Money × WebhookReply
unfolding apply
webhook o seen d genuine id event now =
    if not genuine
    then (seen, d, invalid_signature)
    else if any (is_delivery id) seen
    then (seen, d, duplicate)
    else delivered id seen (apply o d event now)

-- The rows of a booking's checkouts, the latest first.
pub record Checkout : Type 0 where
  pub order : ℕ
  pub amount : ℕ
  pub status : PaymentStatus

pub data CheckoutError : Type 0 where
  no_booking not_borrower provider_down : CheckoutError
  not_waiting : Status → CheckoutError

abbrev pub has_lapsed : Option Instant → Instant → Bool
has_lapsed none now = false
has_lapsed (some d) now = leb_ℤ d now

abbrev pub can_reuse : ℕ → Checkout → Bool
can_reuse total c = is_payable c.status && c.amount == total

abbrev pub open_order : List Checkout → ℕ → Option ℕ → List Checkout × Result CheckoutError ℕ
open_order rows total none = (rows, err provider_down)
open_order rows total (some order) =
    (record { order = order; amount = total; status = created } ∷ rows, ok order)

abbrev pub reuse_or_open :
    List Checkout → ℕ → Option ℕ → Option Checkout → List Checkout × Result CheckoutError ℕ
reuse_or_open rows total reply (some c) = (rows, ok c.order)
reuse_or_open rows total reply none = open_order rows total reply

-- `checkout`, of the row that was found: the order to pay. `reply` is the provider's answer to the
-- creation of an order.
unfoldable pub checkout :
    Booking → ℕ → List Checkout → ℕ → Instant → Option ℕ → List Checkout × Result CheckoutError ℕ
unfolding is_payable
checkout b total rows user now reply =
    if not (b.borrower == user) && not (b.lender == user)
    then (rows, err no_booking)
    else if not (b.borrower == user)
    then (rows, err not_borrower)
    else if not (is b.status awaiting_payment) || has_lapsed b.expires_at now
    then (rows, err (not_waiting b.status))
    else reuse_or_open rows total reply (find (can_reuse total) rows)
