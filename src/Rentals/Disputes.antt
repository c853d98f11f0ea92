-- ===== src/Rentals/Disputes.antt =====
-- `open`, `respond` and `resolve` of DisputesService (apps/api/src/modules/rentals/disputes.service.ts).
-- Texts and the audit log are left out.
use nivra.Prelude.{
  ℕ, ◌+◌, Bool, true, false, not, ◌&&◌, ◌||◌, Option, none, some, is_some, List, [], ◌∷◌, Result,
  ok, err, ltb, if◌then◌else◌,
}
use nivra.Prelude.Int.{leb_ℤ}
use nivra.Time.{Instant, claim_until}
use nivra.Bookings.Status.{
  active, returned, is, includes, lender, admin, party, open_dispute, resolve_dispute,
}
use nivra.Bookings.Rules.{defined_and}
use nivra.Bookings.Policy.{Windows, max_keepable}
use nivra.Machine.Rows.{Share}
use nivra.Machine.Transition.{Patch, no_patch, Options, TransitionError, refused, transition_row}
use nivra.Rentals.Handover.{
  Rental, Dispute, not_found, window_closed, wrong_reason, already_decided, storage_failed, moved,
  keep_too_large, Run, party_for, is_lender, is_borrower, is_none, moved_to, plain_options,
}

pub data DisputeReason : Type 0 where
  not_returned other_reason : DisputeReason

abbrev pub is_not_returned : DisputeReason → Bool
is_not_returned not_returned = true
is_not_returned r = false

-- `!==` on Booleans.
abbrev pub differ : Bool → Bool → Bool
differ true b = not b
differ false b = b

abbrev pub new_dispute : ℕ → Dispute
new_dispute claim = record { claim = claim; is_resolved = false; responded = false; kept = none }

-- A booking has one dispute at most (a unique index).
abbrev once : Rental → List Share → Result TransitionError (List Share)
once r shares = if is_some r.dispute then err refused else ok shares

abbrev pub dispute_options : Rental → Options
dispute_options r = record { patch = no_patch; in_tx = once r; only_if = λ b. true }

unfoldable pub open_claim : Windows → Rental → ℕ → DisputeReason → ℕ → Bool → Instant → Run
unfolding transition_row party_for claim_until max_keepable
open_claim w r user reason claim stored now =
    let b = r.world.booking in
    let who = party_for b user in
    let most = max_keepable b.deposit b.late_fee in
    if is_none who
    then (r, err not_found)
    else if not (is_lender who) || not (includes (active ∷ returned ∷ []) b.status)
    then (r, err (moved b.status))
    else if is b.status returned && defined_and b.returned_at (λ t. leb_ℤ (claim_until t) now)
    then (r, err window_closed)
    else if differ (is b.status active) (is_not_returned reason)
    then (r, err wrong_reason)
    else if ltb most claim
    then (r, err (keep_too_large most))
    else if not stored
    then (r, err storage_failed)
    else moved_to r (λ x. record x { dispute = some (new_dispute claim) })
        (transition_row w r.world open_dispute (party lender) (dispute_options r) now)

abbrev pub can_respond : Option Dispute → Bool
can_respond none = false
can_respond (some d) = not d.is_resolved && not d.responded

abbrev pub respond_row : Option Dispute → Option Dispute
respond_row none = none
respond_row (some d) = some (record d { responded = true })

unfoldable pub respond : Rental → ℕ → Bool → Run
unfolding party_for
respond r user stored =
    let b = r.world.booking in
    let who = party_for b user in
    if is_none who
    then (r, err not_found)
    else if not (is_borrower who) || not (can_respond r.dispute)
    then (r, err (moved b.status))
    else if not stored
    then (r, err storage_failed)
    else (record r { dispute = respond_row r.dispute }, ok tt)

abbrev pub resolved_patch : Instant → ℕ → ℕ → Patch
resolved_patch now late_fee kept = record no_patch {
  completed_at = some now;
  kept = some (late_fee + kept);
}

abbrev pub resolve_row : Dispute → ℕ → Dispute
resolve_row d kept = record d { is_resolved = true; kept = some kept }

-- `resolve`, of a booking's dispute that was found.
unfoldable pub resolve_found : Windows → Rental → Dispute → ℕ → Instant → Run
unfolding transition_row max_keepable
resolve_found w r d kept now =
    let b = r.world.booking in
    let most = max_keepable b.deposit b.late_fee in
    if d.is_resolved
    then (r, err already_decided)
    else if ltb most kept
    then (r, err (keep_too_large most))
    else moved_to r (λ x. record x { dispute = some (resolve_row d kept) })
        (transition_row w r.world resolve_dispute (party admin)
          (plain_options (resolved_patch now b.late_fee kept)) now)

unfoldable pub resolve : Windows → Rental → ℕ → Instant → Run
unfolding resolve_found
resolve w r kept now = elim r.dispute [
  | none ↦ (r, err not_found)
  | some d ↦ resolve_found w r d kept now
]
