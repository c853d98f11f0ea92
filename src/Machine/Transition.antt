-- ===== src/Machine/Transition.antt =====
-- `transition` of booking-state-machine.ts, the one place where a booking changes status, and the
-- timer `expireIfDue` of bookings.service.ts. A call runs in one database transaction with the row
-- locked, so it is one step of the world.
use nivra.Prelude.{
  ℕ, Bool, true, false, not, ◌&&◌, ◌||◌, Option, none, some, List, [], ◌∷◌, map, Result, ok, err,
  ltb, if◌then◌else◌,
}
use nivra.Prelude.Int.{leb_ℤ}
use nivra.Time.{Instant}
use nivra.Bookings.Status.{
  Status, requested, awaiting_docs, awaiting_payment, returned, is, includes, is_open, is_paid,
  Party, Actor, system, Action, submit_docs, expire, complete,
}
use nivra.Bookings.Rules.{BookingState, next_status}
use nivra.Bookings.Policy.{Windows, deadline_for}
use nivra.Credits.Entries.{release_credit}
use nivra.Machine.Rows.{Booking, Share, World, state_of, event_for}

-- The booking fields that callers set along with the status; `none` leaves a field as it is.
pub record Patch : Type 0 where
  pub handed_over_at : Option Instant
  pub returned_at : Option Instant
  pub completed_at : Option Instant
  pub late_days : Option ℕ
  pub late_fee : Option ℕ
  pub kept : Option ℕ
  pub cancelled_by : Option Party

abbrev pub no_patch : Patch
no_patch = record {
  handed_over_at = none;
  returned_at = none;
  completed_at = none;
  late_days = none;
  late_fee = none;
  kept = none;
  cancelled_by = none;
}

pub data TransitionError : Type 0 where
  not_found : TransitionError
  invalid_transition : Status → TransitionError
  refused : TransitionError

-- `inTx` is the caller's part of the transaction: what it does to the document shares.
pub record Options : Type 0 where
  pub patch : Patch
  pub in_tx : List Share → Result TransitionError (List Share)
  pub only_if : Booking → Bool

abbrev pub or_else {ℓ} : {A : Type ℓ} → Option A → A → A
or_else none old = old
or_else (some new) old = new

abbrev or_keep {ℓ} : {A : Type ℓ} → Option A → Option A → Option A
or_keep none old = old
or_keep (some new) old = some new

-- `tx.booking.update`: the patch, the status, the deadline, and the closing time.
abbrev update : Booking → Patch → Status → Option Instant → Option Instant → Booking
update b p to expires_at closed_at = record {
  id = b.id;
  borrower = b.borrower;
  lender = b.lender;
  status = to;
  required_docs = b.required_docs;
  starts_on = b.starts_on;
  ends_on = b.ends_on;
  handed_over_at = or_keep p.handed_over_at b.handed_over_at;
  returned_at = or_keep p.returned_at b.returned_at;
  completed_at = or_keep p.completed_at b.completed_at;
  expires_at = expires_at;
  closed_at = closed_at;
  credit = b.credit;
  deposit = b.deposit;
  late_days = or_else p.late_days b.late_days;
  late_fee = or_else p.late_fee b.late_fee;
  kept = or_else p.kept b.kept;
  cancelled_by = or_keep p.cancelled_by b.cancelled_by;
}

-- `updateMany where accessExpiresAt: null`.
abbrev pub end_access : Instant → Share → Share
end_access now s = elim s.access_expires_at [
  | none ↦ record s { access_expires_at = some now }
  | some d ↦ s
]

abbrev is_submit : Action → Bool
is_submit submit_docs = true
is_submit a = false

-- The state that the next deadline is computed from.
abbrev moved : BookingState → Status → Bool → BookingState
moved s to docs_submitted = record {
  status = to;
  requires_docs = s.requires_docs;
  docs_submitted = docs_submitted;
  starts_on = s.starts_on;
  ends_on = s.ends_on;
  returned_at = s.returned_at;
}

-- What is written once the rules allow `to` and the caller's part is done.
unfoldable pub write :
    Windows → World → Action → Actor → Patch → Instant → Status → List Share → World
unfolding is_open is_paid
write w d action actor patch now to shares =
    let b = d.booking in
    let state = state_of b d.shares in
    let closing = not (is_open to) in
    let submitted = is_submit action || state.docs_submitted in
    let deadline = deadline_for (moved state to submitted) b.starts_on now w in
    record {
      booking =
          update b patch to (if closing then none else deadline)
            (if closing then some now else b.closed_at);
      shares = if closing then map (end_access now) shares else shares;
      events =
          record { kind = event_for action; from = b.status; to = to; actor = actor } ∷ d.events;
      credits =
          if closing && ltb 0 b.credit && not (is_paid b.status)
          then (release_credit d.credits b.id none).1
          else d.credits;
    }

-- A result of `ok none` is the source's `null`: the row did not meet `onlyIf`.
unfoldable pub transition_row :
    Windows → World → Action → Actor → Options → Instant → Result TransitionError (Option World)
unfolding write
transition_row w d action actor opts now =
    if not (opts.only_if d.booking)
    then ok none
    else elim (next_status action actor (state_of d.booking d.shares) now) [
      | none ↦ err (invalid_transition d.booking.status)
      | some to ↦ elim (opts.in_tx d.shares) [
        | err e ↦ err e
        | ok shares ↦ ok (some (write w d action actor opts.patch now to shares))
      ]
    ]

-- `transition`, with the lookup of the row.
unfoldable pub transition :
    Windows
    → Option World
    → Action
    → Actor
    → Options
    → Instant
    → Result TransitionError (Option World)
unfolding transition_row
transition w none action actor opts now = err not_found
transition w (some d) action actor opts now = transition_row w d action actor opts now

abbrev pub is_due : Option Instant → Instant → Bool
is_due none now = false
is_due (some d) now = leb_ℤ d now

abbrev pub expirable : List Status
expirable = requested ∷ awaiting_docs ∷ awaiting_payment ∷ []

abbrev pub done_at : Instant → Patch
done_at now = record {
  handed_over_at = none;
  returned_at = none;
  completed_at = some now;
  late_days = none;
  late_fee = none;
  kept = none;
  cancelled_by = none;
}

abbrev pub complete_options : Instant → Options
complete_options now = record {
  patch = done_at now;
  in_tx = λ shares. ok shares;
  only_if = λ b. is b.status returned && is_due b.expires_at now;
}

abbrev pub expire_options : Instant → Options
expire_options now = record {
  patch = no_patch;
  in_tx = λ shares. ok shares;
  only_if = λ b. includes expirable b.status && is_due b.expires_at now;
}

abbrev after_timer :
    World → Result TransitionError (Option World) → Result TransitionError (Bool × World)
after_timer d (err e) = err e
after_timer d (ok none) = ok (false, d)
after_timer d (ok (some d')) = ok (true, d')

-- `expireIfDue`, called at `now`; `clock` is the time that the machine reads after it.
unfoldable pub expire_if_due :
    Windows → World → Instant → Instant → Result TransitionError (Bool × World)
unfolding transition_row
expire_if_due w d now clock =
    if is d.booking.status returned
    then after_timer d (transition_row w d complete system (complete_options now) clock)
    else after_timer d (transition_row w d expire system (expire_options now) clock)
