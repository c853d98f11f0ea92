-- ===== src/Machine/Ending.antt =====
-- A booking comes to an end: how many changes it can go through.
use nivra.Prelude.{
  ℕ, ◌+◌, ◌≤◌, ◌≡◌, refl, Option, none, some, List, [], ◌∷◌, Result, ok, err, arith,
}
use nivra.Time.{Instant}
use nivra.Bookings.Status.{
  Status, requested, awaiting_docs, awaiting_payment, confirmed, active, returned, completed,
  disputed, declined, expired, cancelled, Actor, Action, submit_docs,
}
use nivra.Bookings.Policy.{Windows}
use nivra.Bookings.Diagram.{
  Edge, next_status-Edge, ask_docs, ask_payment, refuse, share, approve, reject, pay, lapse_request,
  lapse_docs, lapse_payment, withdraw, stop_request, stop_docs, stop_payment, stop_confirmed, hand,
  miss, give_back, claim_active, claim_returned, finish, decide,
}
use nivra.Machine.Rows.{World, state_of}
use nivra.Machine.Transition.{Options, TransitionError, transition_row, write}
use nivra.Machine.Outcome.{transition_row-cases}

-- How far a booking has come.
abbrev rank : Status → ℕ
rank requested = 0
rank awaiting_docs = 1
rank awaiting_payment = 2
rank confirmed = 3
rank active = 4
rank returned = 5
rank disputed = 6
rank completed = 7
rank declined = 7
rank expired = 7
rank cancelled = 7

rank_le : (s : Status) → rank s ≤ 7
rank_le s = ground arith

-- A call of `transition` on a booking.
pub record Step : Type 0 where
  pub action : Action
  pub actor : Actor
  pub options : Options
  pub at : Instant

abbrev counts : Action → ℕ
counts submit_docs = 0
counts a = 1

abbrev pub Moved : Type 0
Moved = Result TransitionError (Option World)

-- The row after a call, and how much the call counts.
abbrev pub after_step : World → Moved → World
after_step d (err e) = d
after_step d (ok none) = d
after_step d (ok (some d')) = d'

abbrev pub count_of : Action → Moved → ℕ
count_of a (err e) = 0
count_of a (ok none) = 0
count_of a (ok (some d')) = counts a

-- How many of the calls, made one after the other, change the booking, the sharing of documents aside.
unfoldable pub changes : Windows → World → List Step → ℕ
unfolding transition_row
changes w d [] = 0
changes w d (k ∷ ks) =
    let r = transition_row w d k.action k.actor k.options k.at in
    count_of k.action r + changes w (after_step d r) ks

-- A call that changes the booking takes it further by what it counts.
edge_counted : {a : Action} {p : Actor} {s t : Status} → Edge a p s t → counts a + rank s ≤ rank t
edge_counted ask_docs = omega arith
edge_counted ask_payment = omega arith
edge_counted refuse = omega arith
edge_counted share = omega arith
edge_counted approve = omega arith
edge_counted reject = omega arith
edge_counted pay = omega arith
edge_counted lapse_request = omega arith
edge_counted lapse_docs = omega arith
edge_counted lapse_payment = omega arith
edge_counted withdraw = omega arith
edge_counted stop_request = omega arith
edge_counted stop_docs = omega arith
edge_counted stop_payment = omega arith
edge_counted stop_confirmed = omega arith
edge_counted hand = omega arith
edge_counted miss = omega arith
edge_counted give_back = omega arith
edge_counted claim_active = omega arith
edge_counted claim_returned = omega arith
edge_counted finish = omega arith
edge_counted decide = omega arith

step_counted :
    (w : Windows) (d : World) (k : Step) (r : Moved)
    → transition_row w d k.action k.actor k.options k.at ≡ r
    → count_of k.action r + rank d.booking.status ≤ rank (after_step d r).booking.status
unfolding write
step_counted w d k (err e) h = omega arith
step_counted w d k (ok none) h = omega arith
step_counted w d k (ok (some d')) h =
    let (to, shares, moves, mine, met, e) =
      transition_row-cases w d k.action k.actor k.options k.at h in
    rw e (edge_counted (next_status-Edge k.action k.actor (state_of d.booking d.shares) k.at moves))

changes-rank :
    (w : Windows) (d : World) (ks : List Step) → changes w d ks + rank d.booking.status ≤ 7
unfolding changes
changes-rank w d [] = omega (arith, rank_le d.booking.status)
changes-rank w d (k ∷ ks) =
    let r = transition_row w d k.action k.actor k.options k.at in
    omega (arith, step_counted w d k r refl, changes-rank w (after_step d r) ks)

-- Whatever transitions are tried on a booking, in any order, by anybody and at any times, at most
-- seven of them change it, the sharing of documents aside.
pub changes-le : (w : Windows) (d : World) (ks : List Step) → changes w d ks ≤ 7
changes-le w d ks = omega (arith, changes-rank w d ks)
