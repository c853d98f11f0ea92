-- ===== src/Bookings/Diagram.antt =====
-- The steps of a booking, and what `nextStatus` of booking-rules.ts makes of them. The list is what the
-- diagram and the text of docs/ARCHITECTURE.md, section 5, say together: ACCEPTED is an event and no
-- status, and some steps are in the text only (a dispute while the item is out, the expiry of a booking
-- that waits for documents, and a cancellation while it waits for documents or for its payment).
use nivra.Prelude.{◌*◌, ◌≡◌, refl, ◌⊎◌, Bool, true, false, none, some, arith}
use nivra.Prelude.Int.{pos, ◌+ℤ◌, ◌-ℤ◌}
use nivra.Time.{Instant, day_ms}
use nivra.Bookings.Status.{
  Status, requested, awaiting_docs, awaiting_payment, confirmed, active, returned, completed,
  disputed, declined, expired, cancelled, is_open, is_paid, is_rental, Party, borrower, lender,
  admin, Actor, party, system, Action, accept, decline, cancel, submit_docs, approve_docs,
  reject_docs, confirm_payment, expire, hand_over, mark_returned, no_show, open_dispute, complete,
  resolve_dispute,
}
use nivra.Bookings.Rules.{BookingState, next_status}

-- Who may take a booking where, by which action, the dates left out.
pub data Edge : Action → Actor → Status → Status → Type 0 where
  ask_docs : Edge accept (party lender) requested awaiting_docs
  ask_payment : Edge accept (party lender) requested awaiting_payment
  refuse : Edge decline (party lender) requested declined
  share : Edge submit_docs (party borrower) awaiting_docs awaiting_docs
  approve : Edge approve_docs (party lender) awaiting_docs awaiting_payment
  reject : Edge reject_docs (party lender) awaiting_docs declined
  pay : Edge confirm_payment system awaiting_payment confirmed
  lapse_request : Edge expire system requested expired
  lapse_docs : Edge expire system awaiting_docs expired
  lapse_payment : Edge expire system awaiting_payment expired
  withdraw : Edge cancel (party borrower) requested cancelled
  stop_request : Edge cancel (party admin) requested cancelled
  stop_docs : {p : Party} → Edge cancel (party p) awaiting_docs cancelled
  stop_payment : {p : Party} → Edge cancel (party p) awaiting_payment cancelled
  stop_confirmed : {p : Party} → Edge cancel (party p) confirmed cancelled
  hand : Edge hand_over (party lender) confirmed active
  miss : Edge no_show (party lender) confirmed cancelled
  give_back : Edge mark_returned (party borrower) active returned
  claim_active : Edge open_dispute (party lender) active disputed
  claim_returned : Edge open_dispute (party lender) returned disputed
  finish : Edge complete system returned completed
  decide : Edge resolve_dispute (party admin) disputed completed

ruleset edges = (
  ask_docs, ask_payment, refuse, share, approve, reject, pay, lapse_request, lapse_docs,
  lapse_payment, withdraw, stop_request, stop_docs, stop_payment, stop_confirmed, hand, miss,
  give_back, claim_active, claim_returned, finish, decide,
)

-- Whatever `next_status` allows is one of the listed steps, by the actor and the action and between the
-- statuses that the step names.
pub next_status-Edge :
    (a : Action) (p : Actor) (b : BookingState) (now : Instant) {t : Status}
    → next_status a p b now ≡ some t
    → Edge a p b.status t
unfolding next_status
next_status-Edge a p b now h = grind (arith, edges)

-- A booking that the edge starts from, when its dates allow the step.
abbrev sample : Status → Bool → BookingState
sample s docs = record {
  status = s;
  requires_docs = docs;
  docs_submitted = docs;
  starts_on = some (pos 0);
  ends_on = some (pos 0);
  returned_at = some (pos 0);
}

abbrev Realised : Action → Actor → Status → Status → Type 0
Realised a p s t =
    (b : BookingState) × (now : Instant) × (b.status ≡ s) × (next_status a p b now ≡ some t)

stop_docs-Realised : (p : Party) → Realised cancel (party p) awaiting_docs cancelled
unfolding next_status
stop_docs-Realised borrower = (sample awaiting_docs true, pos 0, refl, refl)
stop_docs-Realised lender = (sample awaiting_docs true, pos 0, refl, refl)
stop_docs-Realised admin = (sample awaiting_docs true, pos 0, refl, refl)

stop_payment-Realised : (p : Party) → Realised cancel (party p) awaiting_payment cancelled
unfolding next_status
stop_payment-Realised borrower = (sample awaiting_payment true, pos 0, refl, refl)
stop_payment-Realised lender = (sample awaiting_payment true, pos 0, refl, refl)
stop_payment-Realised admin = (sample awaiting_payment true, pos 0, refl, refl)

stop_confirmed-Realised : (p : Party) → Realised cancel (party p) confirmed cancelled
unfolding next_status
stop_confirmed-Realised borrower = (sample confirmed true, pos 0, refl, refl)
stop_confirmed-Realised lender = (sample confirmed true, pos 0, refl, refl)
stop_confirmed-Realised admin = (sample confirmed true, pos 0, refl, refl)

-- Every listed step is allowed for some booking of its first status at some instant.
pub Edge-Realised :
    {a : Action} {p : Actor} {s t : Status}
    → Edge a p s t
    → (b : BookingState) × (now : Instant) × (b.status ≡ s) × (next_status a p b now ≡ some t)
unfolding next_status ◌+ℤ◌ ◌-ℤ◌
Edge-Realised ask_docs = (sample requested true, pos 0, refl, refl)
Edge-Realised ask_payment = (sample requested false, pos 0, refl, refl)
Edge-Realised refuse = (sample requested true, pos 0, refl, refl)
Edge-Realised share = (sample awaiting_docs false, pos 0, refl, refl)
Edge-Realised approve = (sample awaiting_docs true, pos 0, refl, refl)
Edge-Realised reject = (sample awaiting_docs true, pos 0, refl, refl)
Edge-Realised pay = (sample awaiting_payment true, pos 0, refl, refl)
Edge-Realised lapse_request = (sample requested true, pos 0, refl, refl)
Edge-Realised lapse_docs = (sample awaiting_docs true, pos 0, refl, refl)
Edge-Realised lapse_payment = (sample awaiting_payment true, pos 0, refl, refl)
Edge-Realised withdraw = (sample requested true, pos 0, refl, refl)
Edge-Realised stop_request = (sample requested true, pos 0, refl, refl)
Edge-Realised (stop_docs {p = p}) = stop_docs-Realised p
Edge-Realised (stop_payment {p = p}) = stop_payment-Realised p
Edge-Realised (stop_confirmed {p = p}) = stop_confirmed-Realised p
Edge-Realised hand = (sample confirmed true, pos 0, refl, refl)
Edge-Realised miss = (sample confirmed true, pos 0, refl, refl)
Edge-Realised give_back = (sample active true, pos 0, refl, refl)
Edge-Realised claim_active = (sample active true, pos (10 * day_ms), refl, refl)
Edge-Realised claim_returned = (sample returned true, pos 0, refl, refl)
Edge-Realised finish = (sample returned true, pos 0, refl, refl)
Edge-Realised decide = (sample disputed true, pos 0, refl, refl)

-- A path of listed steps.
infix 40 ◌⟶*◌
pub data ◌⟶*◌ : Status → Status → Type 0 where
  here : {s : Status} → s ⟶* s
  then : {a : Action} {p : Actor} {s t u : Status} → Edge a p s t → t ⟶* u → s ⟶* u

-- From every status there is a path to a closed one: no booking can be stuck in progress.
pub ⟶*-closed : (s : Status) → (t : Status) × (s ⟶* t) × (is_open t ≡ false)
unfolding is_open
⟶*-closed requested = (declined, then refuse here, refl)
⟶*-closed awaiting_docs = (expired, then lapse_docs here, refl)
⟶*-closed awaiting_payment = (expired, then lapse_payment here, refl)
⟶*-closed confirmed = (completed, then hand (then give_back (then finish here)), refl)
⟶*-closed active = (completed, then give_back (then finish here), refl)
⟶*-closed returned = (completed, then finish here, refl)
⟶*-closed completed = (completed, here, refl)
⟶*-closed disputed = (completed, then decide here, refl)
⟶*-closed declined = (declined, here, refl)
⟶*-closed expired = (expired, here, refl)
⟶*-closed cancelled = (cancelled, here, refl)

-- A closed booking stays as it is: no action of anybody at any time is allowed on it.
pub closed_absorbs :
    (a : Action) (p : Actor) (b : BookingState) (now : Instant)
    → is_open b.status ≡ false
    → next_status a p b now ≡ none
unfolding next_status is_open
closed_absorbs a p b now h = ground arith

-- A booking that is not paid for becomes so only by the system's confirmation of a payment, while
-- it waits for one.
paid_by_payment :
    (a : Action) (p : Actor) (b : BookingState) (now : Instant) {t : Status}
    → next_status a p b now ≡ some t
    → is_paid b.status ≡ false
    → is_paid t ≡ true
    → (a ≡ confirm_payment) × (p ≡ system) × (b.status ≡ awaiting_payment) × (t ≡ confirmed)
unfolding next_status is_paid
paid_by_payment a p b now h u v = ground arith

-- Once the item has changed hands the booking stays in the rental or completes: it is never
-- cancelled, declined or expired, by anybody.
rental_stays :
    (a : Action) (p : Actor) (b : BookingState) (now : Instant) {t : Status}
    → next_status a p b now ≡ some t
    → is_rental b.status ≡ true
    → (is_rental t ≡ true) ⊎ (t ≡ completed)
unfolding next_status is_rental
rental_stays a p b now h r = ground arith
