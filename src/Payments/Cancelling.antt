-- ===== src/Payments/Cancelling.antt =====
-- `refundCancelled`, `settle` and `onBookingChanged` of PaymentsService: the money of a booking that
-- was cancelled after it was paid, and of a rental that is over.
use nivra.Prelude.{ℕ, ◌-◌, min, not, ◌&&◌, ◌||◌, Option, none, some, any, find, ltb, if◌then◌else◌}
use nivra.Prelude.Int.{ℤ, pos, pos_part, eq_ℤ}
use nivra.Time.{Instant}
use nivra.Ledger.{
  Amounts, post, refund_postings, deposit_keep_postings, cash_of, deposit_kept, refund_credit,
}
use nivra.Bookings.Status.{Status, completed, is, is_paid, admin}
use nivra.Bookings.Policy.{Paid, Refund, refund_for}
use nivra.Credits.Entries.{Entries, release_credit, credit_back_for, releases_for}
use nivra.Machine.Rows.{Booking, EventType}
use nivra.Refunds.Rows.{cancellation, deposit_return}
use nivra.Refunds.Service.{commission_bps, create_parts, is_captured}
use nivra.Payouts.Booking.{on_confirmed, on_cancelled, release_all, send_kept}
use nivra.Payments.Rows.{
  Money, Outside, Run, and_then, done, bank_of, book_of, put_book, put_refund, put_posting,
  has_kind, keeps_deposit, credits_refund,
}

abbrev pub paid_of : Money → Paid
paid_of d = record {
  rent = d.pay.rent;
  fee = d.fee;
  deposit = d.world.booking.deposit;
  starts_on = d.world.booking.starts_on;
}

-- `??`
abbrev pub or_else {ℓ} : {A : Type ℓ} → Option A → A → A
or_else none x = x
or_else (some a) x = a

-- The refund of the policy; `now` is read where the row has no closing time.
unfoldable pub policy_refund : Money → Instant → Refund
unfolding refund_for
policy_refund d now =
    let b = d.world.booking in
    refund_for (paid_of d) (or_else b.cancelled_by admin) (or_else b.closed_at now)

-- What goes back as credit, and the credit entries after it: what an earlier run gave back is not
-- given again.
unfoldable pub give_back : Booking → Entries → ℕ → ℤ × Entries
unfolding release_credit credit_back_for
give_back b es refund_rent = elim (find (releases_for b.id) es) [
  | some e ↦ (e.amount, es)
  | none ↦ release_credit es b.id (some (credit_back_for (pos b.credit) (pos refund_rent)))
]

abbrev pub refund_amounts : Refund → Amounts
refund_amounts r = record { rent = r.rent; fee = r.fee; deposit = r.deposit }

abbrev pub put_credits : Money → Entries → Money
put_credits d es = record d { world = record d.world { credits = es } }

unfoldable pub after_refund : Outside → ℕ → Money → Run
unfolding on_cancelled
after_refund o rent_refunded d = put_book d (on_cancelled (book_of d) rent_refunded (bank_of d o))

-- The end of `refundCancelled`, once the credit went back; an entry's amount that gives back is
-- never negative.
unfoldable pub refund_rest : Outside → Refund → ℕ → Money → Run
unfolding create_parts post refund_postings cash_of after_refund
refund_rest o r credit_back d =
    let a = refund_amounts r in
    if eq_ℤ (cash_of a credit_back) (pos 0) && ltb 0 credit_back
    then (if any (credits_refund d.pay.booking) d.pay.ledger
        then done d
        else and_then
            (put_posting d (
              post d.pay.ledger refund_credit d.pay.booking none
                (refund_postings a credit_back d.pay.rent commission_bps)))
            (after_refund o r.rent))
    else and_then
        (put_refund d (create_parts d.pay o.refund_id cancellation a credit_back o.refund_reply))
        (after_refund o r.rent)

abbrev pub refund_with : Outside → Money → Refund → ℤ × Entries → Run
unfolding refund_rest
refund_with o d r (back, es) = refund_rest o r (pos_part back) (put_credits d es)

unfoldable pub refund_cancelled : Outside → Money → Instant → Run
unfolding policy_refund give_back refund_rest
refund_cancelled o d now =
    if not (is_captured d.pay.status) || any (has_kind cancellation) d.pay.refunds
    then done d
    else let r = policy_refund d now in
      refund_with o d r (give_back d.world.booking d.world.credits r.rent)

-- The first step of `settle`: what the lender keeps of the deposit is posted once.
unfoldable pub keep_deposit : ℕ → Money → Run
unfolding post deposit_keep_postings
keep_deposit kept d =
    if not (ltb 0 kept) || any (keeps_deposit d.pay.booking) d.pay.ledger
    then done d
    else put_posting d
        (post d.pay.ledger deposit_kept d.pay.booking none (deposit_keep_postings (pos kept)))

-- The payouts: held rent is released, the kept deposit is sent.
unfoldable pub pay_lender : Outside → ℕ → Money → Run
unfolding release_all send_kept
pay_lender o kept d =
    let bank = bank_of d o in put_book d (send_kept (release_all (book_of d) bank) kept bank)

-- The rest of the deposit goes back, once.
unfoldable pub return_deposit : Outside → ℕ → Money → Run
unfolding create_parts
return_deposit o back d =
    if not (ltb 0 back) || any (has_kind deposit_return) d.pay.refunds
    then done d
    else put_refund d (
        create_parts d.pay o.refund_id deposit_return (record { rent = 0; fee = 0; deposit = back })
          0 o.refund_reply)

abbrev pub kept_of : Money → ℕ
kept_of d = min d.world.booking.kept d.world.booking.deposit

unfoldable pub settle : Outside → Money → Run
unfolding keep_deposit pay_lender return_deposit
settle o d =
    if not (is d.world.booking.status completed) || not (is_captured d.pay.status)
    then done d
    else and_then (keep_deposit (kept_of d) d) (λ d₁.
      and_then (pay_lender o (kept_of d) d₁)
        (return_deposit o (d.world.booking.deposit - kept_of d)))

-- `onBookingChanged`; `from` is the status before.
unfoldable pub on_booking_changed : Outside → EventType → Status → Money → Instant → Run
unfolding refund_cancelled settle on_confirmed is_paid
on_booking_changed o EventType.paid from d now = put_book d (on_confirmed (book_of d) (bank_of d o))
on_booking_changed o EventType.cancelled from d now =
    if is_paid from then refund_cancelled o d now else done d
on_booking_changed o EventType.no_show from d now =
    if is_paid from then refund_cancelled o d now else done d
on_booking_changed o EventType.completed from d now = settle o d
on_booking_changed o EventType.dispute_resolved from d now = settle o d
on_booking_changed o e from d now = done d
