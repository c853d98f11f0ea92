-- ===== src/Acting/Promised.antt =====
-- What a person is shown before they cancel, and what `cancel` then leaves to refund.
use nivra.Prelude.{
  ℕ, ◌≡◌, ◌≢◌, refl, true, false, ◌||◌, Option, none, some, List, Result, ok, err, find, any, arith,
  ◌==◌,
}
use nivra.Prelude.Int.{pos, ◌-ℤ◌}
use nivra.Time.{Instant}
use nivra.Ledger.{cash_of}
use nivra.Bookings.Status.{
  Status, is_paid, cancelled, Party, borrower, lender, admin, party, cancel as cancelling,
}
use nivra.Bookings.Rules.{next_status}
use nivra.Bookings.Policy.{Windows}
use nivra.Credits.Entries.{CreditEntry, holds_for, releases_for}
use nivra.Machine.Rows.{World, Booking, Share, state_of}
use nivra.Machine.Transition.{TransitionError, transition_row, write}
use nivra.Machine.Outcome.{transition_row-cases, transition_row-ne-none}
use nivra.Rentals.Handover.{party_for, plain_options}
use nivra.Refunds.Rows.{captured}
use nivra.Payments.Rows.{Money}
use nivra.Payments.Capture.{put_world}
use nivra.Payments.Cancelling.{policy_refund, give_back, refund_amounts}
use nivra.Payments.Preview.{cancel_preview, party_of, preview_agrees}
use nivra.Acting.Calls.{acted, act, act_as, cancel, cancelled_as}

acted_ok :
    (d x : World) (r : Result TransitionError (Option World))
    → r ≢ ok none
    → acted d r ≡ (x, ok tt)
    → r ≡ ok (some x)
acted_ok d x (err e) moved h = absurd (ground arith)
acted_ok d x (ok none) moved h = absurd (moved refl)
acted_ok d x (ok (some d')) moved h = ground arith

asker :
    (b : Booking) (user : ℕ) {p : Party}
    → party_for b user ≡ some p
    → (p ≡ party_of b user) × ((b.borrower == user || b.lender == user) ≡ true)
unfolding party_for
asker b user h = ground arith

cancels_to :
    (p : Party) (d : World) (now : Instant) {to : Status}
    → next_status cancelling (party p) (state_of d.booking d.shares) now ≡ some to
    → to ≡ cancelled
unfolding next_status
cancels_to borrower d now h = ground arith
cancels_to lender d now h = ground arith
cancels_to admin d now h = ground arith

stranger_or_party :
    (d x : World) (step : Party → Result TransitionError (Option World)) (who : Option Party)
    → act_as d none step who ≡ (x, ok tt)
    → (p : Party) × (who ≡ some p) × (acted d (step p) ≡ (x, ok tt))
stranger_or_party d x step none h = absurd (ground arith)
stranger_or_party d x step (some p) h = (p, refl, h)

wrote_as :
    (w : Windows) (d x : World) (p q : Party) (to : Status) (now : Instant) (shares : List Share)
    → p ≡ q
    → to ≡ cancelled
    → x ≡ write w d cancelling (party p) (cancelled_as p) now to shares
    → x ≡ write w d cancelling (party q) (cancelled_as q) now cancelled shares
wrote_as w d x p q to now shares same ends h = rw (← same, ← ends) h

-- The row that a cancellation which succeeds writes.
cancel-writes :
    (w : Windows) (d x : World) (user : ℕ) (now : Instant)
    → cancel w d user now ≡ (x, ok tt)
    → (shares : List Share) × ((d.booking.borrower == user || d.booking.lender == user) ≡ true)
      × (x ≡ (
          let p = party_of d.booking user in
          write w d cancelling (party p) (cancelled_as p) now cancelled shares))
unfolding cancel act
cancel-writes w d x user now h =
    let step =
      λ (p : Party). transition_row w d cancelling (party p) (plain_options (cancelled_as p)) now in
    let (p, who, ran) = stranger_or_party d x step (party_for d.booking user) h in
    let (p_is, known) = asker d.booking user who in
    let moved =
      transition_row-ne-none w d cancelling (party p) (plain_options (cancelled_as p)) now refl in
    let (to, shares, allowed, same, met, wrote) =
      transition_row-cases w d cancelling (party p) (plain_options (cancelled_as p)) now
        (acted_ok d x (step p) moved ran) in
    let ends = cancels_to p d now allowed in
    (shares, known, wrote_as w d x p (party_of d.booking user) to now shares p_is ends wrote)

-- Credit is given back with the refund, not by the cancellation.
paid-keeps_credits :
    (w : Windows) (d : World) (p : Party) (now : Instant) (shares : List Share)
    → is_paid d.booking.status ≡ true
    → (write w d cancelling (party p) (cancelled_as p) now cancelled shares).credits ≡ d.credits
unfolding write
paid-keeps_credits w d p now shares paid = ground arith

-- What a person is shown before they cancel a paid booking is what their cancellation, when it
-- succeeds at that instant, leaves to be refunded: the rent, fee, deposit and tier of the refund
-- that is later computed from the cancelled row, the credit that is then given back, and the cash
-- that is then refunded; for a booking whose credit is held and was not given back.
pub preview-cancel :
    (w : Windows) (d : Money) (x : World) (user : ℕ) (now later : Instant) (h : CreditEntry)
    → is_paid d.world.booking.status ≡ true
    → d.pay.status ≡ captured
    → any (releases_for d.world.booking.id) d.world.credits ≡ false
    → find (holds_for d.world.booking.id) d.world.credits ≡ some h
    → h.amount ≡ pos 0 -ℤ pos d.world.booking.credit
    → cancel w d.world user now ≡ (x, ok tt)
    → let r = policy_refund (put_world d x) later in
      (back : ℕ) × ((give_back x.booking x.credits r.rent).0 ≡ pos back)
      × (cancel_preview d user now
          ≡ some (record {
            refund = cash_of (refund_amounts r) back;
            rent = r.rent;
            fee = r.fee;
            deposit = r.deposit;
            credit_back = pos back;
            tier = some r.tier;
          }))
unfolding policy_refund write give_back
preview-cancel w d x user now later h paid taken fresh held amount ran =
    let (shares, known, wrote) = cancel-writes w d.world x user now ran in
    let back = paid-keeps_credits w d.world (party_of d.world.booking user) now shares paid in
    rw (wrote, back) (preview_agrees d user now later h paid taken known fresh held amount)
