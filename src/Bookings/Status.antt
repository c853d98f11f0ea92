-- ===== src/Bookings/Status.antt =====
-- Booking statuses and their sets (booking-rules.ts), with the enums of the database schema that
-- they use.
use nivra.Prelude.{ℕ, Bool, true, false, List, [], ◌∷◌, any, ◌==◌}

pub data Status : Type 0 where
  requested awaiting_docs awaiting_payment confirmed active returned : Status
  completed disputed declined expired cancelled : Status

abbrev index : Status → ℕ
index requested = 0
index awaiting_docs = 1
index awaiting_payment = 2
index confirmed = 3
index active = 4
index returned = 5
index completed = 6
index disputed = 7
index declined = 8
index expired = 9
index cancelled = 10

-- `===` on statuses.
abbrev pub is : Status → Status → Bool
is s t = index s == index t

-- `list.includes(s)`.
abbrev pub includes : List Status → Status → Bool
includes list s = any (is s) list

abbrev pub open_statuses : List Status
open_statuses =
    requested ∷ awaiting_docs ∷ awaiting_payment ∷ confirmed ∷ active ∷ returned ∷ disputed ∷ []

abbrev pub held_statuses : List Status
held_statuses = awaiting_payment ∷ confirmed ∷ active ∷ returned ∷ disputed ∷ []

abbrev pub paid_statuses : List Status
paid_statuses = confirmed ∷ active ∷ returned ∷ completed ∷ disputed ∷ []

abbrev pub document_access_statuses : List Status
document_access_statuses =
    awaiting_docs ∷ awaiting_payment ∷ confirmed ∷ active ∷ returned ∷ disputed ∷ []

abbrev pub rental_statuses : List Status
rental_statuses = active ∷ returned ∷ disputed ∷ []

unfoldable pub is_open : Status → Bool
is_open s = includes open_statuses s

unfoldable pub is_held : Status → Bool
is_held s = includes held_statuses s

unfoldable pub is_rental : Status → Bool
is_rental s = includes rental_statuses s

-- `isPaid` of booking-state-machine.ts.
unfoldable pub is_paid : Status → Bool
is_paid s = includes paid_statuses s

pub data Party : Type 0 where
  borrower lender admin : Party

pub data Actor : Type 0 where
  party : Party → Actor
  system : Actor

abbrev pub is_party : Party → Actor → Bool
is_party borrower (party borrower) = true
is_party lender (party lender) = true
is_party admin (party admin) = true
is_party p a = false

abbrev pub is_system : Actor → Bool
is_system system = true
is_system a = false

pub data Action : Type 0 where
  accept decline cancel submit_docs approve_docs reject_docs confirm_payment : Action
  expire hand_over mark_returned no_show open_dispute complete resolve_dispute : Action
