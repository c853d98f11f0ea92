-- ===== src/Rentals/Proof.antt =====
-- What a handover that succeeds shows.
use nivra.Prelude.{
  ℕ, ◌≤◌, ◌<◌, ◌≡◌, refl, ◌∙◌, Bool, true, false, not, ◌||◌, Option, none, some, List, Result, ok,
  err, arith, ltb, if◌then◌else◌,
}
use nivra.Prelude.Int.{ltb_ℤ, leb_ℤ, ◌≤ℤ◌, ◌<ℤ◌}
use nivra.Time.{Instant, handover_opens_at, rental_end}
use nivra.Bookings.Status.{
  Status, confirmed, active, is, Party, Actor, lender, party, Action, hand_over as hand_over_action,
}
use nivra.Bookings.Rules.{next_status, BookingState}
use nivra.Bookings.Policy.{Windows}
use nivra.Machine.Rows.{World, state_of, Share}
use nivra.Machine.Transition.{Patch, TransitionError, invalid_transition, transition_row, write}
use nivra.Rentals.Handover.{
  Rental, RentalError, Run, Stage, handover, hand_over, confirm, check_code, code_for, party_for,
  is_none, is_lender, moved_to, after_code, moved, too_early, not_found, put_world, plain_options,
  handed_at, distinct, reported, photos_required, min_confirm_photos,
}

guard-ok :
    (test : Bool) (r : Rental) (e : RentalError) (k : Run)
    → (if test then (r, err e) else k).1 ≡ ok tt
    → (test ≡ false) × ((if test then (r, err e) else k) ≡ k)
guard-ok true r e k h = absurd (ground arith)
guard-ok false r e k h = (refl, refl)

after_code-ok :
    (r : Rental) (k : Rental → Run) (m : Result RentalError (Unit {0}))
    → (after_code r k m).1 ≡ ok tt
    → (m ≡ ok tt) × (after_code r k m ≡ k r)
after_code-ok r k (err e) h = absurd (ground arith)
after_code-ok r k (ok u) h = (refl, refl)

check_code-ok :
    (expected fails code : ℕ)
    → (check_code expected fails code).1 ≡ ok tt
    → (fails < 5) × (code ≡ expected)
unfolding check_code
check_code-ok expected fails code h = ground arith

moved_to-ok :
    (r : Rental) (mine : Rental → Rental) (m : Result TransitionError (Option World)) {x : World}
    → m ≡ ok (some x)
    → (moved_to r mine m).0 ≡ mine (put_world r x)
moved_to-ok r mine m h = rw h refl

-- A transition that does not throw, of a call without a condition, writes the row.
not_none :
    (e : TransitionError) (next : Option Status) (mine : Result TransitionError (List Share))
    (k : Status → List Share → World) (r : Rental) (own : Rental → Rental)
    → (moved_to r own (elim next [
      | none ↦ err e
      | some to ↦ elim mine [ err e ↦ err e | ok shares ↦ ok (some (k to shares)) ]
    ])).1
      ≡ ok tt
    → (to : Status) × (shares : List Share) × (next ≡ some to)
      × ((moved_to r own (elim next [
        | none ↦ err e
        | some to ↦ elim mine [ err e ↦ err e | ok shares ↦ ok (some (k to shares)) ]
      ])).0
          ≡ own (put_world r (k to shares)))
not_none e none mine k r own h = absurd (ground arith)
not_none e (some to) (err f) k r own h = absurd (ground arith)
not_none e (some to) (ok shares) k r own h = (to, shares, refl, refl)

-- What `confirm` has done when it succeeds.
confirm-ok :
    (w : Windows) (r : Rental) (a : Action) (p : Party) (patch : Patch) (stage : Stage) (user : ℕ)
    (photos : List ℕ) (stored : Option (List ℕ)) (now : Instant)
    → (confirm w r a p patch stage user photos stored now).1 ≡ ok tt
    → (2 ≤ distinct photos)
      × ((to : Status) × (next_status a (party p) (state_of r.world.booking r.world.shares) now
            ≡ some to)
          × ((confirm w r a p patch stage user photos stored now).0.world.booking.status ≡ to))
unfolding confirm transition_row write
confirm-ok w r a p patch stage user photos none now h =
    let (enough, same) =
      guard-ok (ltb (distinct photos) min_confirm_photos) r photos_required _ h in
    absurd (ground arith)
confirm-ok w r a p patch stage user photos (some keys) now h =
    let own = reported stage user keys in
    let run = moved_to r own (transition_row w r.world a (party p) (plain_options patch) now) in
    let (enough, same) =
      guard-ok (ltb (distinct photos) min_confirm_photos) r photos_required run h in
    let ran : run.1 ≡ ok tt = rw same at h in
    let (to, shares, moves, e) =
      not_none (invalid_transition r.world.booking.status)
        (next_status a (party p) (state_of r.world.booking r.world.shares) now) (ok r.world.shares)
        (write w r.world a (party p) patch now) r own ran in
    (ground arith, (to, moves, rw (same, e) refl))

hands_over_active :
    (p : Actor) (b : BookingState) (now : Instant) {t : Status}
    → next_status hand_over_action p b now ≡ some t
    → t ≡ active
unfolding next_status
hands_over_active p b now h = ground arith

-- A handover that succeeds was confirmed by the lender, for a confirmed booking, within the time from
-- the day before the rental to its end, with the borrower's code, fewer than five wrong codes since
-- the counter was cleared, and at least two different photos; and the booking is then active.
pub hand_over-ok :
    (w : Windows) (mac : Stage → ℕ) (r : Rental) (user code : ℕ) (photos : List ℕ)
    (stored : Option (List ℕ)) (now : Instant)
    → (hand_over w mac r user code photos stored now).1 ≡ ok tt
    → (is_lender (party_for r.world.booking user) ≡ true)
      × (is r.world.booking.status confirmed ≡ true)
      × (handover_opens_at r.world.booking.starts_on ≤ℤ now)
      × (now <ℤ rental_end r.world.booking.ends_on)
      × (code ≡ code_for mac handover)
      × (r.handover_fails < 5)
      × (2 ≤ distinct photos)
      × ((hand_over w mac r user code photos stored now).0.world.booking.status ≡ active)
unfolding hand_over
hand_over-ok w mac r user code photos stored now h =
    let b = r.world.booking in
    let who = party_for b user in
    let (fails, checked) = check_code (code_for mac handover) r.handover_fails code in
    let tried : Rental = record r { handover_fails = fails } in
    let last = λ (x : Rental).
      confirm w x hand_over_action lender (handed_at now) handover user photos stored now in
    let k₄ = after_code tried last checked in
    let k₃ = if leb_ℤ (rental_end b.ends_on) now then (r, err (moved b.status)) else k₄ in
    let k₂ = if ltb_ℤ now (handover_opens_at b.starts_on) then (r, err too_early) else k₃ in
    let k₁ =
      if not (is_lender who) || not (is b.status confirmed)
      then (r, err (moved b.status))
      else k₂ in
    let (known, e₁) = guard-ok (is_none who) r not_found k₁ h in
    let h₁ : k₁.1 ≡ ok tt = rw e₁ at h in
    let (mine, e₂) =
      guard-ok (not (is_lender who) || not (is b.status confirmed)) r (moved b.status) k₂ h₁ in
    let h₂ : k₂.1 ≡ ok tt = rw e₂ at h₁ in
    let (opened, e₃) = guard-ok (ltb_ℤ now (handover_opens_at b.starts_on)) r too_early k₃ h₂ in
    let h₃ : k₃.1 ≡ ok tt = rw e₃ at h₂ in
    let (early, e₄) = guard-ok (leb_ℤ (rental_end b.ends_on) now) r (moved b.status) k₄ h₃ in
    let h₄ : k₄.1 ≡ ok tt = rw e₄ at h₃ in
    let (right, e₅) = after_code-ok tried last checked h₄ in
    let h₅ : (last tried).1 ≡ ok tt = rw e₅ at h₄ in
    let (tries, same) = check_code-ok (code_for mac handover) r.handover_fails code right in
    let (enough, (to, moves, e)) =
      confirm-ok w tried hand_over_action lender (handed_at now) handover user photos stored now
        h₅ in
    let whole : hand_over w mac r user code photos stored now ≡ last tried =
      e₁ ∙ e₂ ∙ e₃ ∙ e₄ ∙ e₅ in
    (
      ground arith,
      ground arith,
      ground arith,
      ground arith,
      same,
      tries,
      enough,
      rw (whole, e) (hands_over_active (party lender) _ now moves),
    )
