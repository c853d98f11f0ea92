-- ===== src/Machine/Invariant.antt =====
-- What every transition keeps true of a booking's rows.
use nivra.Prelude.{
  ◌<◌, true, false, ◌≡◌, refl, inl, inr, none, some, List, [], ◌∷◌, ok, arith, map, find, All, any,
  is_some, Bool-cases, ltb, lt→ltb,
}
use nivra.Prelude.Int.{pos, ◌+ℤ◌, ◌-ℤ◌}
use nivra.Time.{Instant}
use nivra.Bookings.Status.{Status, Actor, Action, is_open, is_paid}
use nivra.Bookings.Rules.{BookingState, next_status}
use nivra.Bookings.Policy.{Windows}
use nivra.Bookings.Diagram.{Edge, next_status-Edge, closed_absorbs}
use nivra.Credits.Entries.{CreditEntry, credit_balance, holds_for, releases_for}
use nivra.Credits.Release.{release_found}
use nivra.Machine.Rows.{World, Event, event_for, state_of, Share}
use nivra.Machine.Transition.{Options, transition_row, write, end_access}
use nivra.Machine.Outcome.{transition_row-cases}

-- Each event starts where the one before it ended, along one of the listed steps, and the latest
-- ends at the booking's status.
pub data Logged : Status → List Event → Type 0 where
  first : {s : Status} → Logged s []
  next :
      {a : Action} {p : Actor} {s t : Status} {es : List Event}
      → Edge a p s t
      → Logged s es
      → Logged t (record { kind = event_for a; from = s; to = t; actor = p } ∷ es)

abbrev HasEnded : Share → Type 0
HasEnded s = is_some s.access_expires_at ≡ true

pub record IsSettled (d : World) : Type 0 where
  pub logged : Logged d.booking.status d.events
  pub open_not_closed : is_open d.booking.status ≡ true → d.booking.closed_at ≡ none
  pub closed_at_some : is_open d.booking.status ≡ false → is_some d.booking.closed_at ≡ true
  pub no_deadline : is_open d.booking.status ≡ false → d.booking.expires_at ≡ none
  pub access_ended : is_open d.booking.status ≡ false → All HasEnded d.shares

end_access-HasEnded : (now : Instant) (s : Share) → HasEnded (end_access now s)
end_access-HasEnded now s = ground arith

ends-All : (now : Instant) (ss : List Share) → All HasEnded (map (end_access now) ss)
ends-All now [] = tt
ends-All now (s ∷ ss) = (end_access-HasEnded now s, ends-All now ss)

-- What can move is open.
moving_is_open :
    (a : Action) (p : Actor) (b : BookingState) (now : Instant) {t : Status}
    → next_status a p b now ≡ some t
    → is_open b.status ≡ true
moving_is_open a p b now h = elim (Bool-cases (is_open b.status)) [
  | inl still ↦ still
  | inr shut ↦ absurd (ground (arith, closed_absorbs a p b now shut))
]

-- The rows after `write`, when the rules allow the move.
write-IsSettled :
    (w : Windows) (d : World) (a : Action) (p : Actor) (opts : Options) (now : Instant)
    (to : Status) (shares : List Share)
    → next_status a p (state_of d.booking d.shares) now ≡ some to
    → IsSettled d
    → IsSettled (write w d a p opts.patch now to shares)
unfolding write
write-IsSettled w d a p opts now to shares moves settled =
    let was : is_open d.booking.status ≡ true =
      moving_is_open a p (state_of d.booking d.shares) now moves in
    record {
      logged = next (next_status-Edge a p (state_of d.booking d.shares) now moves) settled.logged;
      open_not_closed = λ still. rw still (settled.open_not_closed was);
      closed_at_some = λ shut. rw shut refl;
      no_deadline = λ shut. rw shut refl;
      access_ended = λ shut. rw shut (ends-All now shares);
    }

-- Every transition that succeeds keeps the booking's rows settled: the events form an unbroken path
-- of listed steps that ends at the booking's status, an open booking has no closing time, and a closed
-- one has a closing time, no timer, and no document share whose access goes on.
pub transition-IsSettled :
    (w : Windows) (d d' : World) (a : Action) (p : Actor) (opts : Options) (now : Instant)
    → IsSettled d
    → transition_row w d a p opts now ≡ ok (some d')
    → IsSettled d'
transition-IsSettled w d d' a p opts now settled h =
    let (to, shares, moves, mine, met, e) = transition_row-cases w d a p opts now h in
    rw e (write-IsSettled w d a p opts now to shares moves settled)

-- A booking with credit that closes without having been paid gives the credit back: if the table
-- holds the booking's credit under a person, and none of it was given back before, the transition
-- that closes the booking, whichever it is, raises that person's balance by exactly the credit.
pub unpaid_close-credit :
    (w : Windows) (d d' : World) (a : Action) (p : Actor) (opts : Options) (now : Instant)
    (held : CreditEntry)
    → find (holds_for d.booking.id) d.credits ≡ some held
    → held.amount ≡ pos 0 -ℤ pos d.booking.credit
    → any (releases_for d.booking.id) d.credits ≡ false
    → 0 < d.booking.credit
    → is_paid d.booking.status ≡ false
    → transition_row w d a p opts now ≡ ok (some d')
    → is_open d'.booking.status ≡ false
    → credit_balance d'.credits held.user
      ≡ credit_balance d.credits held.user +ℤ pos d.booking.credit
unfolding write
unpaid_close-credit w d d' a p opts now held found amount fresh has unpaid h shut =
    let (to, shares, moves, mine, met, e) = transition_row-cases w d a p opts now h in
    let closes : is_open to ≡ false = rw e at shut in
    let owed : ltb 0 d.booking.credit ≡ true = lt→ltb 0 d.booking.credit has in
    rw (e, closes, owed, unpaid)
      (release_found d.credits held d.booking.id d.booking.credit found amount fresh has)
