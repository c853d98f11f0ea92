-- ===== src/Rentals/Within.antt =====
-- The amounts of a rental that stay within the deposit.
use nivra.Prelude.{
  ℕ, ◌≤◌, ◌≡◌, refl, Bool, true, false, Option, none, some, List, Result, ok, err, arith,
  if◌then◌else◌,
}
use nivra.Time.{Instant}
use nivra.Bookings.Status.{Status, Actor, Action, Party, party}
use nivra.Bookings.Policy.{Windows, late_fee_for}
use nivra.Machine.Rows.{World, Share}
use nivra.Machine.Transition.{Patch, Options, TransitionError, transition_row, write, or_else}
use nivra.Machine.Outcome.{transition_row-cases}
use nivra.Rentals.Handover.{
  Rental, Stage, Run, RentalError, confirm, after_code, moved_to, put_world, plain_options,
  reported,
}

-- The late fee and what is kept are both within the deposit.
pub record IsWithin (r : Rental) : Type 0 where
  pub fee_within : r.world.booking.late_fee ≤ r.world.booking.deposit
  pub kept_within : r.world.booking.kept ≤ r.world.booking.deposit

abbrev LateWithin : ℕ → Option ℕ → Type 0
LateWithin deposit none = Unit
LateWithin deposit (some x) = x ≤ deposit

-- A patch within the deposit.
abbrev PatchWithin : ℕ → Patch → Type 0
PatchWithin deposit p = LateWithin deposit p.late_fee × LateWithin deposit p.kept

or_else_within :
    (deposit old : ℕ) (new : Option ℕ)
    → LateWithin deposit new
    → old ≤ deposit
    → or_else new old ≤ deposit
or_else_within deposit old none h k = k
or_else_within deposit old (some x) h k = h

write-IsWithin :
    (w : Windows) (r : Rental) (a : Action) (p : Actor) (patch : Patch) (now : Instant)
    (to : Status) (shares : List Share)
    → PatchWithin r.world.booking.deposit patch
    → IsWithin r
    → IsWithin (put_world r (write w r.world a p patch now to shares))
unfolding write
write-IsWithin w r a p patch now to shares h within = record {
  fee_within =
      or_else_within r.world.booking.deposit r.world.booking.late_fee patch.late_fee h.0
        within.fee_within;
  kept_within =
      or_else_within r.world.booking.deposit r.world.booking.kept patch.kept h.1 within.kept_within;
}

pub transition-IsWithin :
    (w : Windows) (r : Rental) (a : Action) (p : Actor) (opts : Options) (now : Instant) {x : World}
    → transition_row w r.world a p opts now ≡ ok (some x)
    → PatchWithin r.world.booking.deposit opts.patch
    → IsWithin r
    → IsWithin (put_world r x)
transition-IsWithin w r a p opts now h fits within =
    let (to, shares, moves, mine, met, e) = transition_row-cases w r.world a p opts now h in
    rw e (write-IsWithin w r a p opts.patch now to shares fits within)

pub IsWithin-world : (r s : Rental) → s.world ≡ r.world → IsWithin r → IsWithin s
IsWithin-world r s e within = record {
  fee_within = rw e within.fee_within;
  kept_within = rw e within.kept_within;
}

-- What changes the rental's own rows leaves the booking.
moved_to-IsWithin :
    (r : Rental) (mine : Rental → Rental) (m : Result TransitionError (Option World))
    → ((x : Rental) → (mine x).world ≡ x.world)
    → ((x : World) → m ≡ ok (some x) → IsWithin (put_world r x))
    → IsWithin r
    → IsWithin (moved_to r mine m).0
moved_to-IsWithin r mine (err e) keeps h within = within
moved_to-IsWithin r mine (ok none) keeps h within = within
moved_to-IsWithin r mine (ok (some x)) keeps h within =
    IsWithin-world (put_world r x) (mine (put_world r x)) (keeps (put_world r x)) (h x refl)

pub late_fee_within : (days price deposit : ℕ) → late_fee_for days price deposit ≤ deposit
unfolding late_fee_for
late_fee_within days price deposit = omega arith

-- A transition with a patch within the deposit, and the rental's own rows.
pub step-IsWithin :
    (w : Windows) (r : Rental) (mine : Rental → Rental) (a : Action) (p : Actor) (opts : Options)
    (now : Instant)
    → ((x : Rental) → (mine x).world ≡ x.world)
    → PatchWithin r.world.booking.deposit opts.patch
    → IsWithin r
    → IsWithin (moved_to r mine (transition_row w r.world a p opts now)).0
step-IsWithin w r mine a p opts now keeps fits within =
    moved_to-IsWithin r mine (transition_row w r.world a p opts now) keeps
      (λ x h. transition-IsWithin w r a p opts now h fits within) within

-- A call that leaves both amounts within the deposit.
pub record Safe (x : Run) : Type 0 where
  pub within : IsWithin x.0

-- A guard that throws leaves the rental as it is.
pub guard-Safe :
    (test : Bool) (r : Rental) (e : RentalError) (k : Run)
    → IsWithin r
    → Safe k
    → Safe (if test then (r, err e) else k)
guard-Safe true r e k w rest = record { within = w }
guard-Safe false r e k w rest = rest

pub after_code-Safe :
    (r : Rental) (k : Rental → Run) (m : Result RentalError (Unit {0}))
    → IsWithin r
    → Safe (k r)
    → Safe (after_code r k m)
after_code-Safe r k (err e) w rest = record { within = w }
after_code-Safe r k (ok u) w rest = rest

pub confirm-Safe :
    (w : Windows) (r : Rental) (a : Action) (p : Party) (patch : Patch) (stage : Stage) (user : ℕ)
    (photos : List ℕ) (stored : Option (List ℕ)) (now : Instant)
    → PatchWithin r.world.booking.deposit patch
    → IsWithin r
    → Safe (confirm w r a p patch stage user photos stored now)
unfolding confirm
confirm-Safe w r a p patch stage user photos none now fits within =
    guard-Safe _ r _ _ within (record { within = within })
confirm-Safe w r a p patch stage user photos (some keys) now fits within =
    guard-Safe _ r _ _ within (record {
      within =
          step-IsWithin w r (reported stage user keys) a (party p) (plain_options patch) now
            (λ x. refl) fits within;
    })
