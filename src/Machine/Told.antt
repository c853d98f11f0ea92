-- ===== src/Machine/Told.antt =====
-- Nobody's booking changes behind their back.
use nivra.Prelude.{ℕ, Bool, true, ◌≡◌, some, List, any, arith, ◌==◌, ok}
use nivra.Time.{Instant}
use nivra.Bookings.Status.{Status, borrower, lender, admin, Actor, party, Action, cancel}
use nivra.Bookings.Policy.{Windows}
use nivra.Bookings.Diagram.{
  Edge, next_status-Edge, ask_docs, ask_payment, refuse, share, approve, reject, pay, lapse_request,
  lapse_docs, lapse_payment, withdraw, stop_request, stop_docs, stop_payment, stop_confirmed, hand,
  miss, give_back, claim_active, claim_returned, finish, decide,
}
use nivra.Machine.Rows.{Booking, World, event_for, state_of}
use nivra.Machine.Transition.{Options, transition_row}
use nivra.Machine.Outcome.{transition_row-cases}
use nivra.Machine.Notices.{Notice, notify}

-- A notice for the user is among those sent.
unfoldable pub is_told : ℕ → List Notice → Bool
is_told u notices = any (λ n. u == n.user) notices

-- The people who did not act.
unfoldable pub OthersTold : Actor → Booking → List Notice → Type 0
unfolding is_told
OthersTold (party borrower) b notices = is_told b.lender notices ≡ true
OthersTold (party lender) b notices = is_told b.borrower notices ≡ true
OthersTold a b notices = (is_told b.borrower notices ≡ true) × (is_told b.lender notices ≡ true)

-- Callers of `cancel` set who cancelled.
unfoldable pub RecordsCanceller : Action → Actor → Booking → Type 0
RecordsCanceller cancel (party p) b = b.cancelled_by ≡ some p
RecordsCanceller a p b = Unit

notify-Edge :
    {a : Action} {p : Actor} {s t : Status} (b : Booking)
    → Edge a p s t
    → RecordsCanceller a p b
    → OthersTold p b (notify (event_for a) b)
unfolding notify OthersTold RecordsCanceller is_told
notify-Edge b ask_docs who = ground arith
notify-Edge b ask_payment who = ground arith
notify-Edge b refuse who = ground arith
notify-Edge b share who = ground arith
notify-Edge b approve who = ground arith
notify-Edge b reject who = ground arith
notify-Edge b pay who = ground arith
notify-Edge b lapse_request who = ground arith
notify-Edge b lapse_docs who = ground arith
notify-Edge b lapse_payment who = ground arith
notify-Edge b withdraw who = ground arith
notify-Edge b stop_request who = ground arith
notify-Edge b hand who = ground arith
notify-Edge b miss who = ground arith
notify-Edge b give_back who = ground arith
notify-Edge b claim_active who = ground arith
notify-Edge b claim_returned who = ground arith
notify-Edge b finish who = ground arith
notify-Edge b decide who = ground arith
notify-Edge b (stop_docs {p = borrower}) who = ground arith
notify-Edge b (stop_docs {p = lender}) who = ground arith
notify-Edge b (stop_docs {p = admin}) who = ground arith
notify-Edge b (stop_payment {p = borrower}) who = ground arith
notify-Edge b (stop_payment {p = lender}) who = ground arith
notify-Edge b (stop_payment {p = admin}) who = ground arith
notify-Edge b (stop_confirmed {p = borrower}) who = ground arith
notify-Edge b (stop_confirmed {p = lender}) who = ground arith
notify-Edge b (stop_confirmed {p = admin}) who = ground arith

-- After every transition that succeeds the people on the booking who did not make it are told of it:
-- the lender if the borrower made it, the borrower if the lender did, both if an admin or the system
-- did; given that a call of `cancel` records who cancels, as its callers do.
transition-told :
    (w : Windows) (d d' : World) (a : Action) (p : Actor) (opts : Options) (now : Instant)
    → RecordsCanceller a p d'.booking
    → transition_row w d a p opts now ≡ ok (some d')
    → OthersTold p d'.booking (notify (event_for a) d'.booking)
transition-told w d d' a p opts now who h =
    let (to, shares, moves, mine, met, e) = transition_row-cases w d a p opts now h in
    notify-Edge d'.booking (next_status-Edge a p (state_of d.booking d.shares) now moves) who
