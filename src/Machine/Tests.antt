-- ===== src/Machine/Tests.antt =====
-- Concrete bookings in the state machine.
use nivra.Prelude.{◌≤◌, ◌*◌, ◌≡◌, refl, true, none, some, List, [], ◌∷◌, ok, arith}
use nivra.Prelude.Int.{pos, ◌+ℤ◌, ◌-ℤ◌}
use nivra.Time.{day_ms}
use nivra.Bookings.Status.{Status, requested, cancelled, is_open, is_paid, borrower, party, cancel}
use nivra.Bookings.Rules.{next_status}
use nivra.Bookings.Policy.{Windows}
use nivra.Credits.Entries.{CreditEntry, Entries, entry, grant_referee, hold, credit_balance}
use nivra.Machine.Rows.{Booking, World, submitted, state_of}
use nivra.Machine.Transition.{Options, no_patch, transition_row, write}
use nivra.Machine.Outcome.{transition_row-ok}
use nivra.Machine.Invariant.{IsSettled, first, transition-IsSettled, unpaid_close-credit}
use nivra.Machine.Ending.{Step, changes, changes-le}

abbrev windows : Windows
windows = record { request_min = 1440; docs_min = 720; payment_min = 30 }

abbrev booking_in : Status → Booking
booking_in s = record {
  id = 7;
  borrower = 2;
  lender = 3;
  status = s;
  required_docs = 0;
  starts_on = pos (3 * day_ms);
  ends_on = pos (4 * day_ms);
  handed_over_at = none;
  returned_at = none;
  completed_at = none;
  expires_at = some (pos day_ms);
  closed_at = none;
  credit = 7500;
  deposit = 50000;
  late_days = 0;
  late_fee = 0;
  kept = 0;
  cancelled_by = none;
}

abbrev granted : Entries
granted = entry 2 none (pos 10000) grant_referee ∷ []

abbrev held : Entries
held = entry 2 (some 7) (pos 0 -ℤ pos 7500) hold ∷ granted

abbrev world_in : Status → World
world_in s = record {
  booking = booking_in s;
  shares =
      record {
        id = 60;
        required = 4;
        document = 8;
        verified = true;
        front_key = some 81;
        back_key = none;
        status = submitted;
        access_expires_at = none;
        purged_at = none;
      }
      ∷ [];
  events = [];
  credits = held;
}

abbrev by_borrower : Options
by_borrower = record {
  patch = record no_patch { cancelled_by = some borrower };
  in_tx = λ shares. ok shares;
  only_if = λ b. true;
}

cancels :
    next_status cancel
      (party borrower)
      (state_of (booking_in requested) (world_in requested).shares)
      (pos 5)
    ≡ some cancelled
unfolding next_status
cancels = refl

abbrev cancelled_world : World
cancelled_world =
    write windows (world_in requested) cancel (party borrower) by_borrower.patch (pos 5) cancelled
      (world_in requested).shares

cancel_ok :
    transition_row windows (world_in requested) cancel (party borrower) by_borrower (pos 5)
    ≡ ok (some cancelled_world)
cancel_ok =
    transition_row-ok windows (world_in requested) cancel (party borrower) by_borrower (pos 5) refl
      cancels refl

settled : IsSettled (world_in requested)
unfolding is_open
settled = record {
  logged = first;
  open_not_closed = λ h. refl;
  closed_at_some = λ h. absurd (ground arith);
  no_deadline = λ h. absurd (ground arith);
  access_ended = λ h. absurd (ground arith);
}

transition-IsSettled_example : IsSettled cancelled_world
transition-IsSettled_example =
    transition-IsSettled windows (world_in requested) cancelled_world cancel (party borrower)
      by_borrower (pos 5) settled cancel_ok

abbrev hold_entry : CreditEntry
hold_entry = entry 2 (some 7) (pos 0 -ℤ pos 7500) hold

unpaid_close-credit_example :
    credit_balance cancelled_world.credits 2 ≡ credit_balance held 2 +ℤ pos 7500
unfolding write is_open is_paid
unpaid_close-credit_example =
    unpaid_close-credit windows (world_in requested) cancelled_world cancel (party borrower)
      by_borrower (pos 5) hold_entry refl refl refl (omega arith) refl cancel_ok refl

abbrev cancels_twice : List Step
cancels_twice =
    let s : Step = record {
      action = cancel;
      actor = party borrower;
      options = by_borrower;
      at = pos 5;
    } in
    s ∷ s ∷ []

one_change : changes windows (world_in requested) cancels_twice ≡ 1
unfolding changes transition_row next_status write is_open
one_change = refl

changes-le_example : changes windows (world_in requested) cancels_twice ≤ 7
changes-le_example = changes-le windows (world_in requested) cancels_twice
