-- ===== src/Payments/Confirming.antt =====
-- What a captured payment leads to.
use nivra.Prelude.{
  ℕ, ◌+◌, ◌≤◌, ◌<◌, ◌≡◌, ◌⊎◌, refl, inl, inr, Bool, true, false, Option, none, some, [], Result, ok,
  err, arith, ◌==◌,
}
use nivra.Prelude.Int.{pos, ◌+ℤ◌, int_laws, ◌-ℤ◌}
use nivra.Time.{Instant}
use nivra.Ledger.{
  Ledger, Unbalanced, capture_postings, payment_captured, account_balance, gateway, cash_of,
}
use nivra.Ledger.Balanced.{capture_postings-balanced}
use nivra.Ledger.Flow.{net-capture, post-net}
use nivra.Bookings.Status.{awaiting_payment, confirmed, is, system, confirm_payment}
use nivra.Bookings.Rules.{next_status}
use nivra.Machine.Rows.{World}
use nivra.Machine.Transition.{no_patch, transition_row, write}
use nivra.Machine.Outcome.{transition_row-ok}
use nivra.Refunds.Rows.{Store, counted, captured, late_payment, parts}
use nivra.Refunds.Service.{
  commission_bps, sent, accepts, too_large, RefundError, refundable, create_parts,
}
use nivra.Refunds.Sending.{post-balanced}
use nivra.Refunds.Starting.{create-refused, create_parts-accepted}
use nivra.Payouts.Booking.{Book, on_confirmed}
use nivra.Payments.Rows.{
  Money, Outside, amounts_of, of_refund, put_refund, bank_of, book_of, put_book,
}
use nivra.Payments.Cancelling.{on_booking_changed}
use nivra.Payments.Capture.{
  capture, captured_row, confirm_options, is_payable, posted, refund_late, put_world,
  confirmed as after_posting,
}

abbrev BookRun : Type 0
BookRun = Book × Result Unbalanced (Unit {0})

-- The rest of a capture of the right order, while the payment is open.
pub capture-posted :
    (o : Outside) (d : Money) (p : ℕ) (now : Instant)
    → is_payable d.pay.status ≡ true
    → d.world.booking.credit ≤ d.pay.rent + d.fee + d.world.booking.deposit
    → (g : Ledger) × (capture o d d.order p now
        ≡ after_posting o
            (captured_row d p g)
            now
            (transition_row o.windows d.world confirm_payment system confirm_options now))
      × (account_balance g gateway
          ≡ account_balance d.pay.ledger gateway
            +ℤ (pos d.world.booking.credit -ℤ pos (d.pay.rent + d.fee + d.world.booking.deposit)))
unfolding capture posted
capture-posted o d p now payable within =
    let a = amounts_of d in
    let lines = capture_postings a d.world.booking.credit commission_bps in
    let (g, e) =
      post-balanced d.pay.ledger payment_captured d.pay.booking (some p) lines
        (capture_postings-balanced a d.world.booking.credit commission_bps within (omega arith)) in
    let same : (d.order == d.order) ≡ true = ground arith in
    let moved = post-net d.pay.ledger payment_captured d.pay.booking (some p) lines gateway e in
    let cash = (net-capture a d.world.booking.credit commission_bps within (omega arith)).3 in
    (g, rw (same, payable, e) refl, rw (moved, cash) refl)

-- The transition of a booking that waits for its payment.
confirms :
    (o : Outside) (x : World) (now : Instant)
    → x.booking.status ≡ awaiting_payment
    → transition_row o.windows x confirm_payment system confirm_options now
      ≡ ok (some (write o.windows x confirm_payment system no_patch now confirmed x.shares))
unfolding next_status
confirms o x now waiting =
    transition_row-ok o.windows x confirm_payment system confirm_options now (rw waiting refl)
      (rw waiting refl) refl

not_confirmed :
    (o : Outside) (x : World) (now : Instant)
    → is x.booking.status awaiting_payment ≡ false
    → transition_row o.windows x confirm_payment system confirm_options now ≡ ok none
unfolding transition_row
not_confirmed o x now other = rw other refl

written_status :
    (o : Outside) (x : World) (now : Instant)
    → (write o.windows x confirm_payment system no_patch now confirmed x.shares).booking.status
      ≡ confirmed
unfolding write
written_status o x now = refl

put_book-kept :
    (d : Money) (r : BookRun)
    → ((put_book d r).0.world ≡ d.world)
      × ((put_book d r).0.payment_id ≡ d.payment_id)
      × ((put_book d r).0.pay.status ≡ d.pay.status)
      × ((put_book d r).0.pay.refunds ≡ d.pay.refunds)
put_book-kept d (b, err e) = (refl, refl, refl, refl)
put_book-kept d (b, ok u) = (refl, refl, refl, refl)

-- A payment of a booking that waits for it confirms the booking, is captured under the provider's
-- id, and gives nothing back, whatever the payout to the lender comes to; for a credit of at most
-- what the booking costs.
pub capture-confirms :
    (o : Outside) (d : Money) (p : ℕ) (now : Instant)
    → is_payable d.pay.status ≡ true
    → d.world.booking.status ≡ awaiting_payment
    → d.world.booking.credit ≤ d.pay.rent + d.fee + d.world.booking.deposit
    → let (d', r) = capture o d d.order p now in
      (r ≡ ok tt)
      × (d'.world.booking.status ≡ confirmed)
      × (d'.payment_id ≡ some p)
      × (d'.pay.status ≡ captured)
      × (d'.pay.refunds ≡ d.pay.refunds)
unfolding after_posting on_booking_changed
capture-confirms o d p now payable waiting within =
    let (g, e, cash) = capture-posted o d p now payable within in
    let x = write o.windows d.world confirm_payment system no_patch now confirmed d.world.shares in
    let d₁ = put_world (captured_row d p g) x in
    let (world, paid_as, status, refunds) =
      put_book-kept d₁ (on_confirmed (book_of d₁) (bank_of d₁ o)) in
    rw (e, confirms o d.world now waiting)
      (refl, rw (world, written_status o d.world now) refl, paid_as, status, refunds)

pub put_refund-ok :
    (d : Money) (r : Store × Result RefundError (Option ℕ)) {id : Option ℕ}
    → r.1 ≡ ok id
    → put_refund d r ≡ (record d { pay = r.0 }, ok tt)
put_refund-ok d (p, err e) h = absurd (ground arith)
put_refund-ok d (p, ok x) h = refl

-- What `refund_late` does with the payment that was just captured.
late_whole :
    (o : Outside) (d : Money) (ref : ℕ) (processed : Bool)
    → d.pay.status ≡ captured
    → d.pay.refunds ≡ []
    → d.pay.amount ≡ d.pay.rent + d.fee + d.world.booking.deposit
    → 0 < d.pay.amount
    → o.refund_reply ≡ accepts ref processed
    → let (d', r) = refund_late o d in
      (r ≡ ok tt)
      × (d'.world ≡ d.world)
      × (account_balance d'.pay.ledger gateway
          ≡ account_balance d.pay.ledger gateway +ℤ pos d.pay.amount)
unfolding refund_late refundable cash_of counted
late_whole o d ref processed status none_yet whole above reply =
    let a = amounts_of d in
    let all : cash_of a 0 ≡ pos d.pay.amount = omega int_laws in
    let left : refundable d.pay ≡ pos d.pay.amount = rw (status, none_yet) (omega int_laws) in
    let (sent, moved) =
      create_parts-accepted d.pay o.refund_id late_payment a 0 ref processed (rw all (omega arith))
        (rw (all, left) (omega arith)) (omega arith) (omega arith) in
    let kept =
      put_refund-ok d (create_parts d.pay o.refund_id late_payment a 0 (accepts ref processed))
        sent in
    rw (reply, kept) (refl, refl, rw (moved, all) refl)

late_refused :
    (o : Outside) (d : Money)
    → d.pay.status ≡ captured
    → d.pay.refunds ≡ []
    → d.pay.amount < d.pay.rent + d.fee + d.world.booking.deposit
    → refund_late o d ≡ (d, err (of_refund (too_large (pos d.pay.amount))))
unfolding refund_late create_parts refundable cash_of counted
late_refused o d status none_yet less =
    let a = amounts_of d in
    let all : cash_of a 0 ≡ pos (d.pay.rent + d.fee + d.world.booking.deposit) = omega int_laws in
    let left : refundable d.pay ≡ pos d.pay.amount = rw (status, none_yet) (omega int_laws) in
    rw
      (
        create-refused d.pay o.refund_id (parts late_payment a 0) (cash_of a 0) o.refund_reply
            (rw all (omega arith)) (rw (all, left) (omega arith)),
        left,
      )
      refl

zero_or : (n : ℕ) → (n ≡ 0) ⊎ (0 < n)
zero_or n = ground arith

-- A payment of a booking that no longer waits for it is captured, leaves the booking as it is, and
-- is refunded: when no credit was used, the call succeeds and what the gateway took comes back
-- whole, if the provider accepts the refund; when credit was used, the refund of the whole price is
-- more than was paid in cash, so the call fails with that error, and nothing comes back. (For a
-- payment of the price less the credit, which has no refunds yet, and is not zero.)
pub capture-late :
    (o : Outside) (d : Money) (p : ℕ) (now : Instant) (ref : ℕ) (processed : Bool)
    → is_payable d.pay.status ≡ true
    → is d.world.booking.status awaiting_payment ≡ false
    → d.pay.refunds ≡ []
    → d.pay.amount + d.world.booking.credit ≡ d.pay.rent + d.fee + d.world.booking.deposit
    → 0 < d.pay.amount
    → o.refund_reply ≡ accepts ref processed
    → let (d', r) = capture o d d.order p now in
      (d'.world ≡ d.world)
      × (((d.world.booking.credit ≡ 0)
            × (r ≡ ok tt)
            × (account_balance d'.pay.ledger gateway ≡ account_balance d.pay.ledger gateway))
          ⊎ ((0 < d.world.booking.credit)
              × (r ≡ err (of_refund (too_large (pos d.pay.amount))))
              × (d'.pay.status ≡ captured)
              × (d'.pay.refunds ≡ [])))
unfolding after_posting
capture-late o d p now ref processed payable other none_yet price above reply =
    let (g, e, p₁) = capture-posted o d p now payable (omega arith) in
    let d₁ = captured_row d p g in
    rw (e, not_confirmed o d.world now other)
      (elim (zero_or d.world.booking.credit) [
        | inl none_used ↦
            (let whole : d.pay.amount ≡ d.pay.rent + d.fee + d.world.booking.deposit =
                omega arith in
              let (result, world, back) =
                late_whole o d₁ ref processed refl none_yet whole above reply in
              (world, inl (none_used, result, rw (back, p₁) (omega int_laws))))
        | inr used ↦
            (let less : d.pay.amount < d.pay.rent + d.fee + d.world.booking.deposit = omega arith in
              rw (late_refused o d₁ refl none_yet less) (refl, inr (used, refl, refl, none_yet)))
      ])
