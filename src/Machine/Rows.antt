-- ===== src/Machine/Rows.antt =====
-- The rows that a transition reads and writes: the booking, its document shares and its events
-- (apps/api/prisma/schema.prisma), and `stateOf` of booking-presenter.ts. Texts (notes, reasons) are
-- left out.
use nivra.Prelude.{ℕ, Bool, true, false, Option, some, List, any, ltb}
use nivra.Time.{Instant}
use nivra.Bookings.Status.{
  Status, Party, Actor, Action, accept, decline, cancel, submit_docs, approve_docs, reject_docs,
  confirm_payment, expire, hand_over, mark_returned, open_dispute, complete, resolve_dispute,
}
use nivra.Bookings.Rules.{BookingState}
use nivra.Credits.Entries.{Entries}

pub data ShareStatus : Type 0 where
  submitted approved rejected : ShareStatus

-- `required` and `document` are the ids of the document that the listing asks for and of the one in
-- the borrower's vault; a file's key is a number.
pub record Share : Type 0 where
  pub id : ℕ
  pub required : ℕ
  pub document : ℕ
  pub verified : Bool
  pub front_key : Option ℕ
  pub back_key : Option ℕ
  pub status : ShareStatus
  pub access_expires_at : Option Instant
  pub purged_at : Option Instant

pub record Booking : Type 0 where
  pub id : ℕ
  pub borrower : ℕ
  pub lender : ℕ
  pub status : Status
  pub required_docs : ℕ
  pub starts_on : Instant
  pub ends_on : Instant
  pub handed_over_at : Option Instant
  pub returned_at : Option Instant
  pub completed_at : Option Instant
  pub expires_at : Option Instant
  pub closed_at : Option Instant
  pub credit : ℕ
  pub deposit : ℕ
  pub late_days : ℕ
  pub late_fee : ℕ
  pub kept : ℕ
  pub cancelled_by : Option Party

pub data EventType : Type 0 where
  requested accepted declined docs_submitted docs_approved docs_rejected paid expired : EventType
  cancelled handed_over returned no_show disputed completed dispute_resolved : EventType

-- A `booking_events` row; `actor` is the side that acted (its id is left out).
pub record Event : Type 0 where
  pub kind : EventType
  pub from : Status
  pub to : Status
  pub actor : Actor

-- What one transaction sees of the database; the latest event comes first.
pub record World : Type 0 where
  pub booking : Booking
  pub shares : List Share
  pub events : List Event
  pub credits : Entries

abbrev is_submitted : Share → Bool
is_submitted s = elim s.status [ submitted ↦ true | _ ↦ false ]

abbrev pub state_of : Booking → List Share → BookingState
state_of b shares = record {
  status = b.status;
  requires_docs = ltb 0 b.required_docs;
  docs_submitted = any is_submitted shares;
  starts_on = some b.starts_on;
  ends_on = some b.ends_on;
  returned_at = b.returned_at;
}

-- `EVENT_FOR`.
abbrev pub event_for : Action → EventType
event_for accept = accepted
event_for decline = EventType.declined
event_for cancel = EventType.cancelled
event_for submit_docs = EventType.docs_submitted
event_for approve_docs = docs_approved
event_for reject_docs = docs_rejected
event_for confirm_payment = paid
event_for expire = EventType.expired
event_for hand_over = handed_over
event_for mark_returned = EventType.returned
event_for Action.no_show = EventType.no_show
event_for open_dispute = EventType.disputed
event_for complete = EventType.completed
event_for resolve_dispute = dispute_resolved
