-- ===== src/Machine/Notices.antt =====
-- `notify` of booking-state-machine.ts: who is told about a change, with which type of notification,
-- and whether a push goes with it. The wording is left out.
use nivra.Prelude.{ℕ, Bool, true, false, some, List, [], ◌∷◌, if◌then◌else◌}
use nivra.Bookings.Status.{awaiting_docs, is, borrower, lender}
use nivra.Machine.Rows.{
  Booking, EventType, requested, accepted, declined, docs_submitted, docs_approved, docs_rejected,
  paid, expired, cancelled, handed_over, returned, no_show, disputed, completed, dispute_resolved,
}

pub data NoticeType : Type 0 where
  booking_requested booking_accepted booking_docs_requested booking_declined : NoticeType
  booking_docs_submitted booking_docs_approved booking_confirmed booking_expired : NoticeType
  booking_cancelled booking_handed_over booking_returned booking_dispute_opened : NoticeType
  booking_completed : NoticeType

pub record Notice : Type 0 where
  pub user : ℕ
  pub kind : NoticeType
  pub push : Bool

abbrev send : ℕ → NoticeType → Bool → Notice
send user kind push = record { user = user; kind = kind; push = push }

-- The recipients of a cancellation.
abbrev cancel_recipients : Booking → List Notice
cancel_recipients b = elim b.cancelled_by [
  | some borrower ↦ send b.lender booking_cancelled true ∷ []
  | some lender ↦ send b.borrower booking_cancelled true ∷ []
  | _ ↦ send b.borrower booking_cancelled true ∷ send b.lender booking_cancelled true ∷ []
]

-- The booking is the updated row.
unfoldable pub notify : EventType → Booking → List Notice
notify requested b = send b.lender booking_requested true ∷ []
notify accepted b =
    if is b.status awaiting_docs
    then send b.borrower booking_accepted true ∷ send b.borrower booking_docs_requested false ∷ []
    else send b.borrower booking_accepted true ∷ []
notify declined b = send b.borrower booking_declined true ∷ []
notify docs_submitted b = send b.lender booking_docs_submitted false ∷ []
notify docs_approved b = send b.borrower booking_docs_approved false ∷ []
notify docs_rejected b = send b.borrower booking_declined true ∷ []
notify paid b = send b.borrower booking_confirmed true ∷ send b.lender booking_confirmed true ∷ []
notify expired b = send b.borrower booking_expired true ∷ send b.lender booking_expired true ∷ []
notify cancelled b = cancel_recipients b
notify handed_over b =
    send b.borrower booking_handed_over true ∷ send b.lender booking_handed_over false ∷ []
notify returned b =
    send b.lender booking_returned true ∷ send b.borrower booking_returned false ∷ []
notify no_show b = send b.borrower booking_cancelled true ∷ []
notify disputed b =
    send b.borrower booking_dispute_opened true ∷ send b.lender booking_dispute_opened false ∷ []
notify completed b =
    send b.borrower booking_completed true ∷ send b.lender booking_completed true ∷ []
notify dispute_resolved b =
    send b.borrower booking_completed true ∷ send b.lender booking_completed true ∷ []
