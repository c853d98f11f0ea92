-- ===== src/Rentals/Handover.antt =====
-- `HandoverService` of apps/api/src/modules/rentals/handover.service.ts. The counters of wrong codes
-- (Redis keys) are fields; a key that has expired reads as 0, and reading and raising a counter are
-- one step. The keyed hash behind a code, and whether the photos could be stored, are arguments; a
-- photo's key is a number and notes are left out.
use nivra.Prelude.{
  ℕ, ◌+◌, ◌-◌, ◌%◌, Bool, true, false, not, ◌&&◌, ◌||◌, Option, none, some, List, [], ◌∷◌, ◌++◌,
  any, length, Result, ok, err, ltb, leb, ◌==◌, if◌then◌else◌,
}
use nivra.Prelude.Int.{ltb_ℤ, leb_ℤ}
use nivra.Time.{Instant, handover_opens_at, rental_end, late_days_for, claim_until}
use nivra.Bookings.Status.{
  Status, confirmed, active, returned, is, Party, borrower, lender, party, Action,
  hand_over as hand_over_action, mark_returned as mark_returned_action, no_show as no_show_action,
}
use nivra.Bookings.Rules.{defined_and}
use nivra.Bookings.Policy.{Windows, late_fee_for}
use nivra.Machine.Rows.{Booking, World}
use nivra.Machine.Transition.{Patch, no_patch, Options, TransitionError, transition_row}

pub data Stage : Type 0 where
  handover return : Stage

-- A condition report's photos, by stage and author.
pub record Report : Type 0 where
  pub stage : Stage
  pub author : ℕ
  pub photos : List ℕ

pub record Dispute : Type 0 where
  pub claim : ℕ
  pub is_resolved : Bool
  pub responded : Bool
  pub kept : Option ℕ

pub record Rental : Type 0 where
  pub world : World
  pub price_per_day : ℕ
  pub reports : List Report
  pub dispute : Option Dispute
  pub handover_fails : ℕ
  pub return_fails : ℕ

pub data RentalError : Type 0 where
  not_found too_early code_locked photos_required too_many_photos : RentalError
  window_closed wrong_reason already_decided : RentalError
  storage_failed : RentalError
  moved : Status → RentalError
  code_invalid : ℕ → RentalError
  keep_too_large : ℕ → RentalError
  of_transition : TransitionError → RentalError

abbrev pub Run : Type 0
Run = Rental × Result RentalError (Unit {0})

abbrev pub code_max_tries : ℕ
code_max_tries = 5

abbrev pub min_confirm_photos : ℕ
min_confirm_photos = 2

abbrev pub max_photos : ℕ
max_photos = 6

-- `codeFor`: the six digits, from the first 12 hexadecimal digits of the keyed hash.
unfoldable pub code_for : (Stage → ℕ) → Stage → ℕ
code_for mac stage = mac stage % 1000000

-- `checkCode`, on the counter of one booking and stage.
unfoldable pub check_code : ℕ → ℕ → ℕ → ℕ × Result RentalError (Unit {0})
check_code expected fails code =
    if leb code_max_tries fails
    then (fails, err code_locked)
    else if code == expected
    then (0, ok tt)
    else (fails + 1, err (code_invalid (code_max_tries - (fails + 1))))

-- `load`: who asks, if they are one of the two.
unfoldable pub party_for : Booking → ℕ → Option Party
party_for b user =
    if b.borrower == user then some borrower else if b.lender == user then some lender else none

abbrev pub is_lender : Option Party → Bool
is_lender (some lender) = true
is_lender p = false

abbrev pub is_borrower : Option Party → Bool
is_borrower (some borrower) = true
is_borrower p = false

abbrev pub is_none : Option Party → Bool
is_none none = true
is_none p = false

-- `new Set(keys).size`.
unfoldable pub distinct : List ℕ → ℕ
distinct [] = 0
distinct (k ∷ ks) = let rest = distinct ks in if any (λ x. x == k) ks then rest else rest + 1

abbrev pub same_stage : Stage → Stage → Bool
same_stage handover handover = true
same_stage return return = true
same_stage s t = false

abbrev pub is_report : Stage → ℕ → Report → Bool
is_report stage user r = same_stage r.stage stage && r.author == user

-- `saveReport`: an upsert.
unfoldable pub save_report : Stage → ℕ → List ℕ → List Report → List Report
save_report stage user keys [] = record { stage = stage; author = user; photos = keys } ∷ []
save_report stage user keys (r ∷ rs) =
    let rest = save_report stage user keys rs in
    if is_report stage user r then record r { photos = r.photos ++ keys } ∷ rs else r ∷ rest

abbrev pub put_world : Rental → World → Rental
put_world r x = record r { world = x }

abbrev pub plain_options : Patch → Options
plain_options p = record { patch = p; in_tx = λ shares. ok shares; only_if = λ b. true }

-- A transition whose part of the transaction also changes the rental's own rows.
abbrev pub moved_to : Rental → (Rental → Rental) → Result TransitionError (Option World) → Run
moved_to r mine (err e) = (r, err (of_transition e))
moved_to r mine (ok none) = (r, ok tt)
moved_to r mine (ok (some x)) = (mine (put_world r x), ok tt)

abbrev pub reported : Stage → ℕ → List ℕ → Rental → Rental
reported stage user keys r = record r { reports = save_report stage user keys r.reports }

-- `confirm`: `stored` is what storing the photos answers.
unfoldable pub confirm :
    Windows → Rental → Action → Party → Patch → Stage → ℕ → List ℕ → Option (List ℕ) → Instant → Run
unfolding transition_row save_report distinct
confirm w r action p patch stage user photos stored now =
    if ltb (distinct photos) min_confirm_photos then (r, err photos_required) else elim stored [
      | none ↦ (r, err storage_failed)
      | some keys ↦
          moved_to r (reported stage user keys)
            (transition_row w r.world action (party p) (plain_options patch) now)
    ]

-- What follows the check of the code, with the counter that it left.
abbrev pub after_code : Rental → (Rental → Run) → Result RentalError (Unit {0}) → Run
after_code r k (err e) = (r, err e)
after_code r k (ok u) = k r

abbrev pub handed_at : Instant → Patch
handed_at now = record no_patch { handed_over_at = some now }

unfoldable pub hand_over :
    Windows → (Stage → ℕ) → Rental → ℕ → ℕ → List ℕ → Option (List ℕ) → Instant → Run
unfolding confirm check_code code_for party_for handover_opens_at rental_end
hand_over w mac r user code photos stored now =
    let b = r.world.booking in
    let who = party_for b user in
    if is_none who
    then (r, err not_found)
    else if not (is_lender who) || not (is b.status confirmed)
    then (r, err (moved b.status))
    else if ltb_ℤ now (handover_opens_at b.starts_on)
    then (r, err too_early)
    else if leb_ℤ (rental_end b.ends_on) now
    then (r, err (moved b.status))
    else (let (fails, checked) = check_code (code_for mac handover) r.handover_fails code in
        after_code (record r { handover_fails = fails })
          (λ r'.
            confirm w r' hand_over_action lender (handed_at now) handover user photos stored now)
          checked)

-- What the return writes: the late fee is what the lender keeps unless a dispute awards more.
abbrev pub returned_patch : Instant → ℕ → ℕ → Patch
returned_patch now late_days late_fee = record no_patch {
  returned_at = some now;
  late_days = some late_days;
  late_fee = some late_fee;
  kept = some late_fee;
}

unfoldable pub mark_returned :
    Windows → (Stage → ℕ) → Rental → ℕ → ℕ → List ℕ → Option (List ℕ) → Instant → Run
unfolding confirm check_code code_for party_for late_days_for late_fee_for
mark_returned w mac r user code photos stored now =
    let b = r.world.booking in
    let who = party_for b user in
    if is_none who
    then (r, err not_found)
    else if not (is_borrower who) || not (is b.status active)
    then (r, err (moved b.status))
    else (let (fails, checked) = check_code (code_for mac return) r.return_fails code in
        let late = late_days_for b.ends_on now in
        let patch = returned_patch now late (late_fee_for late r.price_per_day b.deposit) in
        after_code (record r { return_fails = fails })
          (λ r'. confirm w r' mark_returned_action borrower patch return user photos stored now)
          checked)

unfoldable pub no_show : Windows → Rental → ℕ → Instant → Run
unfolding transition_row party_for
no_show w r user now =
    let b = r.world.booking in
    let who = party_for b user in
    if is_none who
    then (r, err not_found)
    else if not (is_lender who)
    then (r, err (moved b.status))
    else moved_to r (λ x. x)
        (transition_row w r.world no_show_action (party lender)
          (plain_options (record no_patch { cancelled_by = some borrower })) now)

-- How many photos a person's report of a stage has.
unfoldable pub photos_of : Stage → ℕ → List Report → ℕ
photos_of stage user [] = 0
photos_of stage user (r ∷ rs) =
    let rest = photos_of stage user rs in if is_report stage user r then length r.photos else rest

abbrev pub photos_open : Booking → Stage → Instant → Bool
unfolding claim_until
photos_open b handover now = is b.status active
photos_open b return now =
    is b.status returned && defined_and b.returned_at (λ t. ltb_ℤ now (claim_until t))

unfoldable pub add_photos : Rental → ℕ → Stage → List ℕ → Option (List ℕ) → Instant → Run
unfolding party_for photos_of distinct save_report claim_until
add_photos r user stage photos stored now =
    let b = r.world.booking in
    if is_none (party_for b user)
    then (r, err not_found)
    else if not (photos_open b stage now)
    then (r, err (moved b.status))
    else if ltb max_photos (photos_of stage user r.reports + distinct photos)
    then (r, err too_many_photos)
    else elim stored [
      | none ↦ (r, err storage_failed)
      | some keys ↦ (reported stage user keys r, ok tt)
    ]

-- The stage whose code the person shows.
unfoldable pub my_stage : Booking → ℕ → Option Stage
unfolding party_for
my_stage b user =
    let who = party_for b user in
    if is_borrower who && is b.status confirmed
    then some handover
    else if is_lender who && is b.status active
    then some return
    else none
