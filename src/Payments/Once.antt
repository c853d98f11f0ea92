-- ===== src/Payments/Once.antt =====
-- Captures, webhooks and checkouts that arrive twice.
use nivra.Prelude.{
  ℕ, ◌+◌, ◌≤◌, ◌≡◌, refl, inl, inr, Bool, true, false, Option, none, some, List, ◌∷◌, any, find,
  Result, ok, err, arith, Bool-cases, Option-cases, ◌==◌, not, ◌&&◌, ◌||◌, if◌then◌else◌,
}
use nivra.Prelude.Int.{ℤ, pos, pos_part, leb_ℤ, ltb_ℤ}
use nivra.Time.{Instant}
use nivra.Ledger.{Ledger, Unbalanced, cash_of}
use nivra.Bookings.Status.{Status, is, awaiting_payment, system, confirm_payment}
use nivra.Machine.Rows.{World, Booking}
use nivra.Machine.Transition.{TransitionError, transition_row}
use nivra.Refunds.Rows.{Refund, Store, Split, parts, has_id, late_payment}
use nivra.Refunds.Service.{
  RefundError, Reply, refuses, accepts, attempt, create, create_parts, sent, accepted, recorded,
  claimed, is_claimable, refundable, set_refunds, new_refund,
}
use nivra.Payouts.Booking.{Book, on_confirmed}
use nivra.Payments.Rows.{Money, Outside, Run, put_book, put_refund, amounts_of, bank_of, book_of}
use nivra.Payments.Cancelling.{on_booking_changed}
use nivra.Payments.Capture.{
  capture, confirmed, captured_row, confirm_options, refund_late, put_world, is_payable,
  WebhookEvent, Delivery, duplicate, webhook, apply, delivered, is_delivery, Checkout,
  CheckoutError, no_booking, not_borrower, not_waiting, checkout, has_lapsed, reuse_or_open,
  can_reuse,
}
use nivra.Payments.Confirming.{capture-posted}

-- The payment is not open to a capture any more.
abbrev IsTaken : Store → Type 0
IsTaken p = is_payable p.status ≡ false

recorded-IsTaken :
    (p : Store) (r : Refund) (ref : ℕ) (done : Bool) (g : Result Unbalanced Ledger)
    → IsTaken p
    → IsTaken (recorded p r ref done g).0
unfolding recorded is_payable
recorded-IsTaken p r ref done (err e) h = h
recorded-IsTaken p r ref done (ok g) h = ground arith

sent-IsTaken : (p : Store) (r : Refund) (reply : Reply) → IsTaken p → IsTaken (sent p r reply).0
unfolding sent accepted
sent-IsTaken p r refuses h = h
sent-IsTaken p r (accepts ref done) h = recorded-IsTaken p r ref done _ h

attempt-IsTaken : (p : Store) (id : ℕ) (reply : Reply) → IsTaken p → IsTaken (attempt p id reply).0
unfolding attempt
attempt-IsTaken p id reply h = elim (Option-cases (find (has_id id) p.refunds)) [
  | inl missing ↦ rw (missing, attempt) h
  | inr (r, found) ↦
      rw (found, attempt)
        (elim (Bool-cases (is_claimable r)) [
          | inl may ↦ rw may (sent-IsTaken (claimed p r) r reply h)
          | inr other ↦ rw other h
        ])
]

create-IsTaken :
    (p : Store) (id : ℕ) (split : Split) (amount : ℤ) (reply : Reply)
    → IsTaken p
    → IsTaken (create p id split amount reply).0
unfolding create
create-IsTaken p id split amount reply h = elim (Bool-cases (leb_ℤ amount (pos 0))) [
  | inl nothing ↦ rw nothing h
  | inr above ↦ elim (Bool-cases (ltb_ℤ (refundable p) amount)) [
    | inl over ↦ rw (above, over) h
    | inr fits ↦
        rw (above, fits)
          (attempt-IsTaken (set_refunds p (new_refund id (pos_part amount) split ∷ p.refunds)) id
            reply h)
  ]
]

put_refund-IsTaken :
    (d : Money) (r : Store × Result RefundError (Option ℕ))
    → IsTaken r.0
    → IsTaken (put_refund d r).0.pay × ((put_refund d r).0.order ≡ d.order)
put_refund-IsTaken d (p, err e) h = (h, refl)
put_refund-IsTaken d (p, ok x) h = (h, refl)

put_book-IsTaken :
    (d : Money) (r : Book × Result Unbalanced (Unit {0}))
    → IsTaken d.pay
    → IsTaken (put_book d r).0.pay × ((put_book d r).0.order ≡ d.order)
put_book-IsTaken d (b, err e) h = (h, refl)
put_book-IsTaken d (b, ok u) h = (h, refl)

confirmed-IsTaken :
    (o : Outside) (d : Money) (now : Instant) (m : Result TransitionError (Option World))
    → IsTaken d.pay
    → IsTaken (confirmed o d now m).0.pay × ((confirmed o d now m).0.order ≡ d.order)
unfolding confirmed refund_late create_parts on_booking_changed
confirmed-IsTaken o d now (err e) h = (h, refl)
confirmed-IsTaken o d now (ok none) h =
    put_refund-IsTaken d
      (create_parts d.pay o.refund_id late_payment (amounts_of d) 0 o.refund_reply)
      (create-IsTaken d.pay o.refund_id (parts late_payment (amounts_of d) 0)
        (cash_of (amounts_of d) 0) o.refund_reply h)
confirmed-IsTaken o d now (ok (some x)) h =
    put_book-IsTaken (put_world d x)
      (on_confirmed (book_of (put_world d x)) (bank_of (put_world d x) o)) h

-- A capture of a payment that was taken changes nothing.
capture-taken :
    (o : Outside) (d : Money) (order p : ℕ) (now : Instant)
    → IsTaken d.pay
    → capture o d order p now ≡ (d, ok tt)
unfolding capture
capture-taken o d order p now taken = rw taken (ground arith)

-- Once a payment was captured, by the webhook or by the app, every later capture of any order under
-- any payment id changes nothing and succeeds, whatever the first one led to (a confirmed booking, a
-- refund, or an error after the capture); for a credit of at most what the booking costs.
pub capture_again :
    (o later : Outside) (d : Money) (p order q : ℕ) (now soon : Instant)
    → is_payable d.pay.status ≡ true
    → d.world.booking.credit ≤ d.pay.rent + d.fee + d.world.booking.deposit
    → let d' = (capture o d d.order p now).0 in capture later d' order q soon ≡ (d', ok tt)
unfolding is_payable
capture_again o later d p order q now soon payable within =
    let (g, e, cash) = capture-posted o d p now payable within in
    let taken =
      confirmed-IsTaken o (captured_row d p g) now
        (transition_row o.windows d.world confirm_payment system confirm_options now) refl in
    rw e (capture-taken later _ order q soon taken.0)

any_head :
    (id : ℕ) (processed : Bool) (seen : List Delivery)
    → any (is_delivery id) (record { event = id; processed = processed } ∷ seen) ≡ true
any_head id processed seen = let same : (id == id) ≡ true = ground arith in rw same refl

delivered-seen :
    (id : ℕ) (seen : List Delivery) (r : Run) → any (is_delivery id) (delivered id seen r).0 ≡ true
delivered-seen id seen (d, err e) = any_head id false seen
delivered-seen id seen (d, ok u) = any_head id true seen

webhook-seen :
    (o : Outside) (seen : List Delivery) (d : Money) (id : ℕ) (event : WebhookEvent) (now : Instant)
    → any (is_delivery id) (webhook o seen d true id event now).0 ≡ true
unfolding webhook
webhook-seen o seen d id event now = elim (Bool-cases (any (is_delivery id) seen)) [
  | inl known ↦ rw (known, webhook) known
  | inr new ↦ rw (new, webhook) (delivered-seen id seen (apply o d event now))
]

-- Every genuine event is applied at most once: after its first delivery, whether that was applied,
-- was a duplicate already or threw an error half-way, each later genuine delivery of its id is
-- answered as a duplicate and changes neither the money nor the table of deliveries.
pub webhook_again :
    (o later : Outside) (seen : List Delivery) (d x : Money) (id : ℕ) (event again : WebhookEvent)
    (now soon : Instant)
    → let (seen', d', reply) = webhook o seen d true id event now in
      webhook later seen' x true id again soon ≡ (seen', x, duplicate)
unfolding webhook
webhook_again o later seen d x id event again now soon =
    rw (webhook-seen o seen d id event now) refl

-- What opening or reusing an order leaves: the next reuse finds it.
reuse_again :
    (rows : List Checkout) (total : ℕ) (reply again : Option ℕ) (found : Option Checkout)
    (order : ℕ)
    → find (can_reuse total) rows ≡ found
    → let (rows', r) = reuse_or_open rows total reply found in
      r ≡ ok order
      → reuse_or_open rows' total again (find (can_reuse total) rows') ≡ (rows', ok order)
unfolding is_payable
reuse_again rows total reply again (some c) order h e =
    let same : c.order ≡ order = ground arith in rw (h, same) refl
reuse_again rows total none again none order h e = absurd (ground arith)
reuse_again rows total (some new) again none order h e =
    let same : new ≡ order = ground arith in
    let mine : (total == total) ≡ true = ground arith in rw (mine, same) refl

-- A checkout that succeeds passed its guards.
guards_passed :
    (stranger other shut : Bool) (rows : List Checkout) (s : Status)
    (k : List Checkout × Result CheckoutError ℕ) {order : ℕ}
    → (if stranger
        then (rows, err no_booking)
        else if other
        then (rows, err not_borrower)
        else if shut
        then (rows, err (not_waiting s))
        else k).1
      ≡ ok order
    → (stranger ≡ false) × (other ≡ false) × (shut ≡ false) × (k.1 ≡ ok order)
guards_passed true other shut rows s k h = absurd (ground arith)
guards_passed false true shut rows s k h = absurd (ground arith)
guards_passed false false true rows s k h = absurd (ground arith)
guards_passed false false false rows s k h = (refl, refl, refl, h)

or_false : (a b c : Bool) → (a || b) ≡ false → c ≡ false → (a || c) ≡ false
or_false a b c h e = ground arith

-- Opening checkout again for a booking that still waits for its payment gives the order that was
-- opened before and makes no second one, whatever the provider would answer.
checkout_again :
    (b : Booking) (total user order : ℕ) (rows : List Checkout) (now soon : Instant)
    (reply again : Option ℕ)
    → has_lapsed b.expires_at soon ≡ false
    → (checkout b total rows user now reply).1 ≡ ok order
    → let rows' = (checkout b total rows user now reply).0 in
      checkout b total rows' user soon again ≡ (rows', ok order)
unfolding checkout
checkout_again b total user order rows now soon reply again waits e =
    let k = reuse_or_open rows total reply (find (can_reuse total) rows) in
    let (known, mine, open_still, opened) =
      guards_passed (not (b.borrower == user) && not (b.lender == user)) (not (b.borrower == user))
        (not (is b.status awaiting_payment) || has_lapsed b.expires_at now) rows b.status k e in
    let waiting : (not (is b.status awaiting_payment) || has_lapsed b.expires_at soon) ≡ false =
      or_false (not (is b.status awaiting_payment)) (has_lapsed b.expires_at now)
        (has_lapsed b.expires_at soon) open_still waits in
    rw (known, mine, open_still, waiting)
      (reuse_again rows total reply again (find (can_reuse total) rows) order refl opened)
