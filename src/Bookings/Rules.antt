-- ===== src/Bookings/Rules.antt =====
-- `nextStatus` and `allowedActions` of booking-rules.ts.
use nivra.Prelude.{
  Bool, true, false, not, ◌&&◌, ◌||◌, Option, none, some, [], ◌∷◌, if◌then◌else◌, is_some, ◌*◌,
}
use nivra.Prelude.Int.{pos, ◌+ℤ◌, ltb_ℤ, leb_ℤ}
use nivra.Time.{
  Instant, rental_start, rental_end, handover_opens_at, claim_until, not_returned_after_days,
  day_ms,
}
use nivra.Bookings.Status.{
  Status, requested, awaiting_docs, awaiting_payment, confirmed, active, returned, completed,
  disputed, declined, expired, cancelled, is, includes, is_open, is_rental, Party, borrower, lender,
  admin, Actor, party, system, is_party, is_system, Action, accept, decline, cancel, submit_docs,
  approve_docs, reject_docs, confirm_payment, expire, hand_over, mark_returned, no_show,
  open_dispute, complete, resolve_dispute,
}

-- The dates are optional in the source; `none` is its undefined (and null).
pub record BookingState : Type 0 where
  pub status : Status
  pub requires_docs : Bool
  pub docs_submitted : Bool
  pub starts_on : Option Instant
  pub ends_on : Option Instant
  pub returned_at : Option Instant

-- `x !== undefined && p(x)`.
abbrev pub defined_and : Option Instant → (Instant → Bool) → Bool
defined_and none p = false
defined_and (some d) p = p d

-- `test ? status : null`.
abbrev when : Bool → Status → Option Status
when true s = some s
when false s = none

-- The `cancel` case.
cancel_by : Actor → Status → Option Status
unfolding is_open is_rental
cancel_by (party admin) s = when (is_open s && not (is_rental s)) cancelled
cancel_by (party borrower) s =
    when (includes (requested ∷ awaiting_docs ∷ awaiting_payment ∷ confirmed ∷ []) s) cancelled
cancel_by (party lender) s =
    when (includes (awaiting_docs ∷ awaiting_payment ∷ confirmed ∷ []) s) cancelled
cancel_by system s = none

-- The `openDispute` case, for the lender.
dispute_by_lender : BookingState → Instant → Option Status
unfolding claim_until rental_end
dispute_by_lender b now =
    if is b.status returned
    then when (defined_and b.returned_at (λ r. ltb_ℤ now (claim_until r))) disputed
    else when
        (is b.status active
          && defined_and b.ends_on
              (λ e. leb_ℤ (rental_end e +ℤ pos (not_returned_after_days * day_ms)) now))
        disputed

unfoldable pub next_status : Action → Actor → BookingState → Instant → Option Status
unfolding cancel_by dispute_by_lender handover_opens_at rental_start rental_end
next_status accept actor b now =
    if not (is_party lender actor) || not (is b.status requested)
    then none
    else if b.requires_docs
    then some awaiting_docs
    else some awaiting_payment
next_status decline actor b now = when (is_party lender actor && is b.status requested) declined
next_status cancel actor b now = cancel_by actor b.status
next_status submit_docs actor b now =
    when (is_party borrower actor && is b.status awaiting_docs && not b.docs_submitted)
      awaiting_docs
next_status approve_docs actor b now =
    when (is_party lender actor && is b.status awaiting_docs && b.docs_submitted) awaiting_payment
next_status reject_docs actor b now =
    when (is_party lender actor && is b.status awaiting_docs && b.docs_submitted) declined
next_status confirm_payment actor b now =
    when (is_system actor && is b.status awaiting_payment) confirmed
next_status expire actor b now =
    when (is_system actor && includes (requested ∷ awaiting_docs ∷ awaiting_payment ∷ []) b.status)
      expired
next_status hand_over actor b now =
    when
      (is_party lender actor
        && is b.status confirmed
        && defined_and b.starts_on (λ s. leb_ℤ (handover_opens_at s) now)
        && defined_and b.ends_on (λ e. ltb_ℤ now (rental_end e)))
      active
next_status mark_returned actor b now =
    when (is_party borrower actor && is b.status active) returned
next_status no_show actor b now =
    when
      (is_party lender actor
        && is b.status confirmed
        && defined_and b.starts_on (λ s. leb_ℤ (rental_start s) now))
      cancelled
next_status open_dispute actor b now =
    if not (is_party lender actor) then none else dispute_by_lender b now
next_status complete actor b now = when (is_system actor && is b.status returned) completed
next_status resolve_dispute actor b now =
    when (is_party admin actor && is b.status disputed) completed

pub record Allowed : Type 0 where
  pub accept : Bool
  pub decline : Bool
  pub cancel : Bool
  pub share_docs : Bool
  pub review_docs : Bool
  pub pay : Bool
  pub handover : Bool
  pub return : Bool
  pub no_show : Bool
  pub dispute : Bool
  pub show_code : Bool
  pub add_photos : Bool

-- The flags that the apps show buttons from; the source takes the borrower or the lender only.
unfoldable pub allowed_actions : Party → BookingState → Instant → Allowed
unfolding next_status claim_until
allowed_actions p b now =
    let can = λ (a : Action). is_some (next_status a (party p) b now) in
    record {
      accept = can Action.accept;
      decline = can Action.decline;
      cancel = can Action.cancel;
      share_docs = can submit_docs;
      review_docs = can approve_docs;
      pay = is_party borrower (party p) && is b.status awaiting_payment;
      handover = can hand_over;
      return = can mark_returned;
      no_show = can Action.no_show;
      dispute = can open_dispute;
      show_code =
          is_party borrower (party p) && is b.status confirmed
          || is_party lender (party p) && is b.status active;
      add_photos =
          is b.status active
          || is b.status returned && defined_and b.returned_at (λ r. ltb_ℤ now (claim_until r));
    }
