-- ===== src/Payments/Rows.antt =====
-- What PaymentsService keeps of one booking: the payment of an order with its refunds, the booking's
-- rows, its transfers, and the lender's payout account. A method that throws keeps what it wrote
-- before, as its transactions are committed one by one.
use nivra.Prelude.{ℕ, Bool, true, false, ◌&&◌, Option, none, some, List, Result, ok, err, ◌==◌}
use nivra.Ledger.{Amounts, Ledger, EntryType, Txn, deposit_kept, refund_credit, Unbalanced}
use nivra.Refunds.Rows.{
  Refund, RefundKind, cancellation, late_payment, deposit_return, Split, parts, goodwill,
}
use nivra.Refunds.Rows as RefundRows
use nivra.Refunds.Service.{RefundError}
use nivra.Refunds.Service as RefundService
use nivra.Machine.Rows.{World}
use nivra.Machine.Transition.{TransitionError}
use nivra.Bookings.Policy.{Windows}
use nivra.Payouts.Transfers.{Transfer}
use nivra.Payouts.Transfers as Transfers
use nivra.Payouts.Booking.{Book, Bank}

pub data AccountStatus : Type 0 where
  pending needs_clarification activated rejected : AccountStatus

pub record Account : Type 0 where
  pub provider_id : ℕ
  pub status : AccountStatus

-- `order` is the payment's order id, `payment_id` the provider's id of the captured payment.
pub record Money : Type 0 where
  pub order : ℕ
  pub payment_id : Option ℕ
  pub fee : ℕ
  pub pay : RefundRows.Store
  pub world : World
  pub transfers : List Transfer
  pub account : Option Account

-- What a call is answered from outside: the id of the refund row it may create, the provider's
-- answers, and the time.
pub record Outside : Type 0 where
  pub windows : Windows
  pub refund_id : ℕ
  pub refund_reply : RefundService.Reply
  pub transfer_reply : Transfer → Transfers.Reply
  pub granted : Transfer → Bool

pub data MoneyError : Type 0 where
  of_refund : RefundError → MoneyError
  of_posting : Unbalanced → MoneyError
  of_transition : TransitionError → MoneyError

abbrev pub Run : Type 0
Run = Money × Result MoneyError (Unit {0})

abbrev pub and_then : Run → (Money → Run) → Run
and_then (d, err e) k = (d, err e)
and_then (d, ok u) k = k d

abbrev pub done : Money → Run
done d = (d, ok tt)

abbrev pub is_activated : Option Account → Bool
is_activated none = false
is_activated (some a) = elim a.status [ activated ↦ true | _ ↦ false ]

abbrev pub bank_of : Money → Outside → Bank
bank_of d o = record {
  active = is_activated d.account;
  reply = o.transfer_reply;
  granted = o.granted;
}

abbrev pub book_of : Money → Book
book_of d = record {
  transfers = d.transfers;
  booking = d.pay.booking;
  rent = d.pay.rent;
  payment = d.pay.status;
  ledger = d.pay.ledger;
}

abbrev pub put_ledger : Money → Ledger → Money
put_ledger d g = record d { pay = record d.pay { ledger = g } }

-- What a step of PayoutsService wrote.
abbrev pub put_book : Money → Book × Result Unbalanced (Unit {0}) → Run
put_book d (b, err e) =
    (record (put_ledger d b.ledger) { transfers = b.transfers }, err (of_posting e))
put_book d (b, ok u) = (record (put_ledger d b.ledger) { transfers = b.transfers }, ok tt)

-- What a step of RefundsService wrote.
abbrev pub put_refund : Money → RefundRows.Store × Result RefundError (Option ℕ) → Run
put_refund d (p, err e) = (record d { pay = p }, err (of_refund e))
put_refund d (p, ok x) = (record d { pay = p }, ok tt)

-- A posting of this booking to the ledger.
abbrev pub put_posting : Money → Result Unbalanced Ledger → Run
put_posting d (err e) = (d, err (of_posting e))
put_posting d (ok g) = done (put_ledger d g)

abbrev pub kind_index : RefundKind → ℕ
kind_index cancellation = 0
kind_index late_payment = 1
kind_index deposit_return = 2

-- `kind` of a refund row.
abbrev pub has_kind : RefundKind → Refund → Bool
has_kind k r = elim r.split [ goodwill ↦ false | parts kind a c ↦ kind_index k == kind_index kind ]

-- `ledgerEntry.count where bookingId and type`: every transaction in the table has lines.
abbrev is_deposit_kept : EntryType → Bool
is_deposit_kept deposit_kept = true
is_deposit_kept k = false

abbrev is_refund_credit : EntryType → Bool
is_refund_credit refund_credit = true
is_refund_credit k = false

abbrev pub keeps_deposit : ℕ → Txn → Bool
keeps_deposit b t = is_deposit_kept t.kind && t.booking == b

abbrev pub credits_refund : ℕ → Txn → Bool
credits_refund b t = is_refund_credit t.kind && t.booking == b

-- The booking's amounts.
abbrev pub amounts_of : Money → Amounts
amounts_of d = record { rent = d.pay.rent; fee = d.fee; deposit = d.world.booking.deposit }
