-- ===== src/Rentals/Kept.antt =====
-- What the lender keeps of a deposit, over a whole rental.
use nivra.Prelude.{
  ℕ, ◌+◌, ◌≤◌, ◌≡◌, refl, Bool, Option, none, some, List, ok, err, arith, not, ◌||◌, ◌&&◌, ltb, [],
  ◌∷◌, Bool-cases, Option-cases, inl, inr,
}
use nivra.Prelude.Int.{ltb_ℤ, leb_ℤ}
use nivra.Time.{Instant, late_days_for}
use nivra.Bookings.Status.{Actor, Action, party}
use nivra.Bookings.Policy.{Windows, late_fee_for, max_keepable}
use nivra.Machine.Rows.{World}
use nivra.Machine.Transition.{Options, transition_row}
use nivra.Bookings.Status.{
  confirmed, active, returned, is, includes, borrower, lender, admin, hand_over as hand_over_action,
  mark_returned as mark_returned_action, no_show as no_show_action, open_dispute, resolve_dispute,
}
use nivra.Time.{handover_opens_at, rental_end, claim_until}
use nivra.Bookings.Rules.{defined_and}
use nivra.Machine.Transition.{no_patch}
use nivra.Rentals.Handover.{
  Dispute, storage_failed, party_for, is_none, is_lender, is_borrower, handed_at, photos_open,
  photos_of, distinct, max_photos, Rental, Stage, hand_over, mark_returned, no_show, confirm,
  add_photos, check_code, code_for, handover, return, moved_to, put_world, plain_options, reported,
  returned_patch,
}
use nivra.Rentals.Disputes.{
  DisputeReason, open_claim, is_not_returned, differ, new_dispute, dispute_options, can_respond,
  respond_row, resolve_row, respond, resolve, resolve_found, resolved_patch,
}
use nivra.Rentals.Within.{
  IsWithin, Safe, IsWithin-world, late_fee_within, step-IsWithin, transition-IsWithin, guard-Safe,
  after_code-Safe, confirm-Safe,
}

-- The calls on a rental; `moves` is any other transition, which sets neither amount.
pub data RentalStep (w : Windows) (r : Rental) : Rental → Type 0 where
  hands :
      (mac : Stage → ℕ) (user code : ℕ) (photos : List ℕ) (stored : Option (List ℕ)) (now : Instant)
      → RentalStep w r (hand_over w mac r user code photos stored now).0
  returns :
      (mac : Stage → ℕ) (user code : ℕ) (photos : List ℕ) (stored : Option (List ℕ)) (now : Instant)
      → RentalStep w r (mark_returned w mac r user code photos stored now).0
  misses : (user : ℕ) (now : Instant) → RentalStep w r (no_show w r user now).0
  adds :
      (user : ℕ) (stage : Stage) (photos : List ℕ) (stored : Option (List ℕ)) (now : Instant)
      → RentalStep w r (add_photos r user stage photos stored now).0
  claims :
      (user : ℕ) (reason : DisputeReason) (claim : ℕ) (stored : Bool) (now : Instant)
      → RentalStep w r (open_claim w r user reason claim stored now).0
  answers : (user : ℕ) (stored : Bool) → RentalStep w r (respond r user stored).0
  decides : (kept : ℕ) (now : Instant) → RentalStep w r (resolve w r kept now).0
  moves :
      (a : Action) (p : Actor) (opts : Options) (now : Instant) {x : World}
      → opts.patch.late_fee ≡ none
      → opts.patch.kept ≡ none
      → transition_row w r.world a p opts now ≡ ok (some x)
      → RentalStep w r (put_world r x)

hand_over-Safe :
    (w : Windows) (mac : Stage → ℕ) (r : Rental) (user code : ℕ) (photos : List ℕ)
    (stored : Option (List ℕ)) (now : Instant)
    → IsWithin r
    → Safe (hand_over w mac r user code photos stored now)
unfolding hand_over
hand_over-Safe w mac r user code photos stored now within =
    let b = r.world.booking in
    let who = party_for b user in
    let (fails, checked) = check_code (code_for mac handover) r.handover_fails code in
    let tried : Rental = record r { handover_fails = fails } in
    let same : IsWithin tried = IsWithin-world r tried refl within in
    guard-Safe (is_none who) r _ _ within (
      guard-Safe (not (is_lender who) || not (is b.status confirmed)) r _ _ within (
        guard-Safe (ltb_ℤ now (handover_opens_at b.starts_on)) r _ _ within (
          guard-Safe (leb_ℤ (rental_end b.ends_on) now) r _ _ within (
            after_code-Safe tried
              (λ x.
                confirm w x hand_over_action lender (handed_at now) handover user photos stored now)
              checked same
              (confirm-Safe w tried hand_over_action lender (handed_at now) handover user photos
                stored now (tt, tt) same)))))

mark_returned-Safe :
    (w : Windows) (mac : Stage → ℕ) (r : Rental) (user code : ℕ) (photos : List ℕ)
    (stored : Option (List ℕ)) (now : Instant)
    → IsWithin r
    → Safe (mark_returned w mac r user code photos stored now)
unfolding mark_returned
mark_returned-Safe w mac r user code photos stored now within =
    let b = r.world.booking in
    let who = party_for b user in
    let (fails, checked) = check_code (code_for mac return) r.return_fails code in
    let tried : Rental = record r { return_fails = fails } in
    let same : IsWithin tried = IsWithin-world r tried refl within in
    let late = late_days_for b.ends_on now in
    let fee = late_fee_for late r.price_per_day b.deposit in
    let patch = returned_patch now late fee in
    let fits : fee ≤ b.deposit = late_fee_within late r.price_per_day b.deposit in
    guard-Safe (is_none who) r _ _ within (
      guard-Safe (not (is_borrower who) || not (is b.status active)) r _ _ within (
        after_code-Safe tried
          (λ x. confirm w x mark_returned_action borrower patch return user photos stored now)
          checked same
          (confirm-Safe w tried mark_returned_action borrower patch return user photos stored now
            (fits, fits) same)))

no_show-Safe :
    (w : Windows) (r : Rental) (user : ℕ) (now : Instant) → IsWithin r → Safe (no_show w r user now)
unfolding no_show
no_show-Safe w r user now within =
    let who = party_for r.world.booking user in
    guard-Safe (is_none who) r _ _ within (
      guard-Safe (not (is_lender who)) r _ _ within (record {
        within =
            step-IsWithin w r (λ x. x) no_show_action (party lender)
              (plain_options (record no_patch { cancelled_by = some borrower })) now (λ x. refl)
              (tt, tt) within;
      }))

add_photos-Safe :
    (r : Rental) (user : ℕ) (stage : Stage) (photos : List ℕ) (stored : Option (List ℕ))
    (now : Instant)
    → IsWithin r
    → Safe (add_photos r user stage photos stored now)
unfolding add_photos
add_photos-Safe r user stage photos stored now within =
    guard-Safe (is_none (party_for r.world.booking user)) r _ _ within (
      guard-Safe (not (photos_open r.world.booking stage now)) r _ _ within (
        guard-Safe (ltb max_photos (photos_of stage user r.reports + distinct photos)) r _ _ within
          (stored-Safe stored)))
  where
    stored-Safe :
        (k : Option (List ℕ))
        → Safe (elim k [
          | none ↦ (r, err storage_failed)
          | some keys ↦ (reported stage user keys r, ok tt)
        ])
    stored-Safe none = record { within = within }
    stored-Safe (some keys) = record {
      within = IsWithin-world r (reported stage user keys r) refl within;
    }

open_claim-Safe :
    (w : Windows) (r : Rental) (user : ℕ) (reason : DisputeReason) (claim : ℕ) (stored : Bool)
    (now : Instant)
    → IsWithin r
    → Safe (open_claim w r user reason claim stored now)
unfolding open_claim
open_claim-Safe w r user reason claim stored now within =
    let b = r.world.booking in
    let who = party_for b user in
    guard-Safe (is_none who) r _ _ within (
      guard-Safe (not (is_lender who) || not (includes (active ∷ returned ∷ []) b.status)) r _ _
        within
        (guard-Safe
          (is b.status returned && defined_and b.returned_at (λ t. leb_ℤ (claim_until t) now)) r _ _
          within
          (guard-Safe (differ (is b.status active) (is_not_returned reason)) r _ _ within (
            guard-Safe (ltb (max_keepable b.deposit b.late_fee) claim) r _ _ within (
              guard-Safe (not stored) r _ _ within (record {
                within =
                    step-IsWithin w r (λ x. record x { dispute = some (new_dispute claim) })
                      open_dispute (party lender) (dispute_options r) now (λ x. refl) (tt, tt)
                      within;
              }))))))

respond-Safe : (r : Rental) (user : ℕ) (stored : Bool) → IsWithin r → Safe (respond r user stored)
unfolding respond
respond-Safe r user stored within =
    let who = party_for r.world.booking user in
    guard-Safe (is_none who) r _ _ within (
      guard-Safe (not (is_borrower who) || not (can_respond r.dispute)) r _ _ within (
        guard-Safe (not stored) r _ _ within (record {
          within = IsWithin-world r (record r { dispute = respond_row r.dispute }) refl within;
        })))

resolve_found-Safe :
    (w : Windows) (r : Rental) (d : Dispute) (kept : ℕ) (now : Instant)
    → IsWithin r
    → Safe (resolve_found w r d kept now)
unfolding resolve_found max_keepable
resolve_found-Safe w r d kept now within =
    let b = r.world.booking in
    let patch = resolved_patch now b.late_fee kept in
    let run =
      moved_to r (λ x. record x { dispute = some (resolve_row d kept) })
        (transition_row w r.world resolve_dispute (party admin) (plain_options patch) now) in
    guard-Safe d.is_resolved r _ _ within
      (elim (Bool-cases (ltb (max_keepable b.deposit b.late_fee) kept)) [
        | inl over ↦ rw over (record { within = within })
        | inr fits ↦
            (let room : b.late_fee + kept ≤ b.deposit = ground (arith, within.fee_within) in
              let safe : Safe run = record {
                within =
                    step-IsWithin w r (λ x. record x { dispute = some (resolve_row d kept) })
                      resolve_dispute (party admin) (plain_options patch) now (λ x. refl) (tt, room)
                      within;
              } in
              rw fits safe)
      ])

resolve-Safe :
    (w : Windows) (r : Rental) (kept : ℕ) (now : Instant) → IsWithin r → Safe (resolve w r kept now)
unfolding resolve
resolve-Safe w r kept now within = elim (Option-cases r.dispute) [
  | inl missing ↦ rw (missing, resolve) (record { within = within })
  | inr (d, found) ↦ rw (found, resolve) (resolve_found-Safe w r d kept now within)
]

moves-IsWithin :
    (w : Windows) (r : Rental) (a : Action) (p : Actor) (opts : Options) (now : Instant) {x : World}
    → opts.patch.late_fee ≡ none
    → opts.patch.kept ≡ none
    → transition_row w r.world a p opts now ≡ ok (some x)
    → IsWithin r
    → IsWithin (put_world r x)
moves-IsWithin w r a p opts now no_fee no_kept h within =
    transition-IsWithin w r a p opts now h (rw no_fee tt, rw no_kept tt) within

RentalStep-IsWithin : (w : Windows) {r s : Rental} → RentalStep w r s → IsWithin r → IsWithin s
RentalStep-IsWithin w {r = r} (hands mac user code photos stored now) h =
    (hand_over-Safe w mac r user code photos stored now h).within
RentalStep-IsWithin w {r = r} (returns mac user code photos stored now) h =
    (mark_returned-Safe w mac r user code photos stored now h).within
RentalStep-IsWithin w {r = r} (misses user now) h = (no_show-Safe w r user now h).within
RentalStep-IsWithin w {r = r} (adds user stage photos stored now) h =
    (add_photos-Safe r user stage photos stored now h).within
RentalStep-IsWithin w {r = r} (claims user reason claim stored now) h =
    (open_claim-Safe w r user reason claim stored now h).within
RentalStep-IsWithin w {r = r} (answers user stored) h = (respond-Safe r user stored h).within
RentalStep-IsWithin w {r = r} (decides kept now) h = (resolve-Safe w r kept now h).within
RentalStep-IsWithin w {r = r} (moves a p opts now no_fee no_kept e) h =
    moves-IsWithin w r a p opts now no_fee no_kept e h

pub data RentalReach (w : Windows) (r : Rental) : Rental → Type 0 where
  start : RentalReach w r r
  more : {s t : Rental} → RentalReach w r s → RentalStep w s t → RentalReach w r t

RentalReach-IsWithin : (w : Windows) {r s : Rental} → RentalReach w r s → IsWithin r → IsWithin s
RentalReach-IsWithin w start h = h
RentalReach-IsWithin w (more r st) h = RentalStep-IsWithin w st (RentalReach-IsWithin w r h)

-- From a booking with nothing kept and no late fee, whatever handovers, returns, claims, decisions and
-- other transitions are tried, in any order and with any answers, what the lender keeps and the late
-- fee are each at most the deposit.
pub reach-kept :
    (w : Windows) (r s : Rental)
    → r.world.booking.late_fee ≡ 0
    → r.world.booking.kept ≡ 0
    → RentalReach w r s
    → (s.world.booking.kept ≤ s.world.booking.deposit)
      × (s.world.booking.late_fee ≤ s.world.booking.deposit)
reach-kept w r s no_fee no_kept h =
    let within =
      RentalReach-IsWithin w h (record { fee_within = omega arith; kept_within = omega arith }) in
    (within.kept_within, within.fee_within)
