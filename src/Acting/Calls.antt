-- ===== src/Acting/Calls.antt =====
-- `accept`, `decline`, `cancel`, `adminCancel`, `expireDue` and the look-ups of open bookings of
-- BookingsService. Reasons and audit rows are left out.
use nivra.Prelude.{
  ℕ, zero, suc, Bool, true, false, not, ◌&&◌, ◌||◌, Option, none, some, List, [], ◌∷◌, any, Result,
  ok, err, ◌==◌, if◌then◌else◌,
}
use nivra.Time.{Instant}
use nivra.Bookings.Status.{
  returned, includes, is_open, Party, borrower, lender, admin, party, accept as accepting,
  decline as declining, cancel as cancelling,
}
use nivra.Bookings.Policy.{Windows}
use nivra.Machine.Rows.{World}
use nivra.Machine.Transition.{
  Patch, no_patch, TransitionError, transition_row, is_due, expirable, expire_if_due,
}
use nivra.Rentals.Handover.{party_for, plain_options}

pub data ActError : Type 0 where
  not_found not_allowed : ActError
  of_transition : TransitionError → ActError

abbrev pub Run : Type 0
Run = World × Result ActError (Unit {0})

abbrev pub acted : World → Result TransitionError (Option World) → Run
acted d (err e) = (d, err (of_transition e))
acted d (ok none) = (d, ok tt)
acted d (ok (some d')) = (d', ok tt)

abbrev same_party : Party → Party → Bool
same_party borrower borrower = true
same_party lender lender = true
same_party admin admin = true
same_party p q = false

abbrev pub may_act : Option Party → Party → Bool
may_act none p = true
may_act (some q) p = same_party q p

-- `act`: as the person's side of the booking, which may have to be a certain one.
abbrev pub act_as :
    World → Option Party → (Party → Result TransitionError (Option World)) → Option Party → Run
act_as d required step none = (d, err not_found)
act_as d required step (some p) =
    if not (may_act required p) then (d, err not_allowed) else acted d (step p)

unfoldable pub act :
    World → ℕ → Option Party → (Party → Result TransitionError (Option World)) → Run
unfolding party_for
act d user required step = act_as d required step (party_for d.booking user)

unfoldable pub accept : Windows → World → ℕ → Instant → Run
unfolding act transition_row
accept w d user now =
    act d user (some lender)
      (λ p. transition_row w d accepting (party p) (plain_options no_patch) now)

unfoldable pub decline : Windows → World → ℕ → Instant → Run
unfolding act transition_row
decline w d user now =
    act d user (some lender)
      (λ p. transition_row w d declining (party p) (plain_options no_patch) now)

abbrev pub cancelled_as : Party → Patch
cancelled_as p = record no_patch { cancelled_by = some p }

unfoldable pub cancel : Windows → World → ℕ → Instant → Run
unfolding act transition_row
cancel w d user now =
    act d user none
      (λ p. transition_row w d cancelling (party p) (plain_options (cancelled_as p)) now)

unfoldable pub admin_cancel : Windows → World → Instant → Run
unfolding transition_row
admin_cancel w d now =
    acted d (transition_row w d cancelling (party admin) (plain_options (cancelled_as admin)) now)

-- `hasOpenBookings`, over the rows of bookings.
abbrev is_open_of : ℕ → World → Bool
unfolding is_open
is_open_of user d =
    (d.booking.borrower == user || d.booking.lender == user) && is_open d.booking.status

unfoldable pub has_open_bookings : List World → ℕ → Bool
unfolding is_open
has_open_bookings ds user = any (is_open_of user) ds

-- The rows that `expireDue` reads.
abbrev pub is_overdue : Instant → World → Bool
is_overdue now d =
    includes (returned ∷ expirable) d.booking.status && is_due d.booking.expires_at now

abbrev one_more : Bool → ℕ → ℕ
one_more true n = suc n
one_more false n = n

-- What follows the timer of one booking: an error ends the loop.
abbrev pub then_rest :
    World
    → List World
    → Result TransitionError (Bool × World)
    → List World × Result TransitionError ℕ
    → List World × Result TransitionError ℕ
then_rest d ds (err e) rest = (d ∷ ds, err e)
then_rest d ds (ok (b, d')) (ds', err e) = (d' ∷ ds', err e)
then_rest d ds (ok (b, d')) (ds', ok n) = (d' ∷ ds', ok (one_more b n))

-- `expireDue` with the number of rows that are taken; the machine reads the time `clock`.
unfoldable pub expire_all :
    Windows → Instant → Instant → ℕ → List World → List World × Result TransitionError ℕ
unfolding expire_if_due
expire_all w now clock zero ds = (ds, ok 0)
expire_all w now clock (suc n) [] = ([], ok 0)
expire_all w now clock (suc n) (d ∷ ds) =
    let fewer = expire_all w now clock n ds in
    let rest = expire_all w now clock (suc n) ds in
    if is_overdue now d
    then then_rest d ds (expire_if_due w d now clock) fewer
    else (d ∷ rest.0, rest.1)

abbrev pub expire_take : ℕ
expire_take = 500

unfoldable pub expire_due :
    Windows → List World → Instant → Instant → List World × Result TransitionError ℕ
unfolding expire_all
expire_due w ds now clock = expire_all w now clock expire_take ds
