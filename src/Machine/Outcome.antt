-- ===== src/Machine/Outcome.antt =====
-- What a transition that succeeds has done.
use nivra.Prelude.{
  Bool, true, false, ◌≡◌, ◌≢◌, refl, Option, none, some, List, if◌then◌else◌, Result, ok, err,
  arith, not,
}
use nivra.Time.{Instant}
use nivra.Bookings.Status.{Status, Actor, Action}
use nivra.Bookings.Rules.{next_status}
use nivra.Bookings.Policy.{Windows}
use nivra.Machine.Rows.{World, state_of, Share}
use nivra.Machine.Transition.{Options, TransitionError, invalid_transition, transition_row, write}

-- The tests of `transition_row`, whatever is written in the end.
step_cases :
    (e : TransitionError) (test : Bool) (next : Option Status)
    (mine : Result TransitionError (List Share)) (k : Status → List Share → World) {d' : World}
    → (if not test then ok none else elim next [
      | none ↦ err e
      | some to ↦ elim mine [ err e ↦ err e | ok shares ↦ ok (some (k to shares)) ]
    ])
      ≡ ok (some d')
    → (to : Status) × (shares : List Share) × (next ≡ some to)
      × (mine ≡ ok shares)
      × (test ≡ true)
      × (d' ≡ k to shares)
step_cases e true (some to) (ok shares) k h = (to, shares, refl, refl, refl, ground arith)
step_cases e false next mine k h = absurd (ground arith)
step_cases e true none mine k h = absurd (ground arith)
step_cases e true (some to) (err f) k h = absurd (ground arith)

-- A transition that succeeds found a status that the rules allow and wrote it.
pub transition_row-cases :
    (w : Windows) (d : World) (a : Action) (p : Actor) (opts : Options) (now : Instant) {d' : World}
    → transition_row w d a p opts now ≡ ok (some d')
    → (to : Status) × (shares : List Share) × (next_status a p (state_of d.booking d.shares) now
        ≡ some to)
      × (opts.in_tx d.shares ≡ ok shares)
      × (opts.only_if d.booking ≡ true)
      × (d' ≡ write w d a p opts.patch now to shares)
unfolding transition_row
transition_row-cases w d a p opts now h =
    step_cases (invalid_transition d.booking.status) (opts.only_if d.booking)
      (next_status a p (state_of d.booking d.shares) now) (opts.in_tx d.shares)
      (write w d a p opts.patch now) h

step_ok :
    (e : TransitionError) (test : Bool) (next : Option Status)
    (mine : Result TransitionError (List Share)) (k : Status → List Share → World) {to : Status}
    {shares : List Share}
    → test ≡ true
    → next ≡ some to
    → mine ≡ ok shares
    → (if not test then ok none else elim next [
      | none ↦ err e
      | some to ↦ elim mine [ err e ↦ err e | ok shares ↦ ok (some (k to shares)) ]
    ])
      ≡ ok (some (k to shares))
step_ok e test next mine k met moves mine_ok = rw (met, moves, mine_ok) refl

-- A call whose tests pass writes the row.
pub transition_row-ok :
    (w : Windows) (d : World) (a : Action) (p : Actor) (opts : Options) (now : Instant)
    {to : Status} {shares : List Share}
    → opts.only_if d.booking ≡ true
    → next_status a p (state_of d.booking d.shares) now ≡ some to
    → opts.in_tx d.shares ≡ ok shares
    → transition_row w d a p opts now ≡ ok (some (write w d a p opts.patch now to shares))
unfolding transition_row
transition_row-ok w d a p opts now met moves mine =
    step_ok (invalid_transition d.booking.status) (opts.only_if d.booking)
      (next_status a p (state_of d.booking d.shares) now) (opts.in_tx d.shares)
      (write w d a p opts.patch now) met moves mine

some_or_err :
    (e : TransitionError) (next : Option Status) (mine : Result TransitionError (List Share))
    (k : Status → List Share → World)
    → elim next as (λ x. Result TransitionError (Option World)) [
      | none ↦ err e
      | some to ↦ elim mine [ err e ↦ err e | ok shares ↦ ok (some (k to shares)) ]
    ]
      ≢ ok none
some_or_err e none mine k = λ h. absurd (ground arith)
some_or_err e (some to) (err f) k = λ h. absurd (ground arith)
some_or_err e (some to) (ok shares) k = λ h. absurd (ground arith)

-- A call whose condition holds moves the booking or throws.
pub transition_row-ne-none :
    (w : Windows) (d : World) (a : Action) (p : Actor) (opts : Options) (now : Instant)
    → opts.only_if d.booking ≡ true
    → transition_row w d a p opts now ≢ ok none
unfolding transition_row
transition_row-ne-none w d a p opts now met = rw met (
    some_or_err (invalid_transition d.booking.status)
      (next_status a p (state_of d.booking d.shares) now) (opts.in_tx d.shares)
      (write w d a p opts.patch now))
