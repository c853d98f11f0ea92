-- ===== src/Payments/Preview.antt =====
-- `cancelPreview` of PaymentsService, and that it says what cancelling then refunds.
use nivra.Prelude.{
  ℕ, ◌≤◌, ◌≡◌, refl, Bool, true, false, not, ◌&&◌, ◌||◌, Option, none, some, [], ◌∷◌, any, min,
  find, arith, ◌==◌, if◌then◌else◌,
}
use nivra.Prelude.Int.{ℤ, pos, ◌-ℤ◌, int_laws}
use nivra.Time.{Instant}
use nivra.Ledger.{cash_of}
use nivra.Bookings.Status.{is_paid, Party, borrower, lender}
use nivra.Bookings.Policy.{Tier, Refund, refund_for}
use nivra.Credits.Entries.{
  CreditEntry, Entries, credit_back_for, release_credit, release_hold, holds_for, releases_for,
}
use nivra.Machine.Rows.{Booking}
use nivra.Refunds.Rows.{PaymentStatus, captured}
use nivra.Payments.Rows.{Money}
use nivra.Payments.Cancelling.{paid_of, policy_refund, give_back, refund_amounts}

pub record Preview : Type 0 where
  pub refund : ℤ
  pub rent : ℕ
  pub fee : ℕ
  pub deposit : ℕ
  pub credit_back : ℤ
  pub tier : Option Tier

abbrev nothing_paid : Preview
nothing_paid = record {
  refund = pos 0;
  rent = 0;
  fee = 0;
  deposit = 0;
  credit_back = pos 0;
  tier = none;
}

abbrev is_just_captured : PaymentStatus → Bool
is_just_captured captured = true
is_just_captured s = false

abbrev pub party_of : Booking → ℕ → Party
party_of b user = if b.borrower == user then borrower else lender

abbrev preview_of : Refund → ℤ → Preview
preview_of r back = record {
  refund = pos r.total -ℤ back;
  rent = r.rent;
  fee = r.fee;
  deposit = r.deposit;
  credit_back = back;
  tier = some r.tier;
}

-- `none` is the error that the booking was not found; the summary text is left out.
unfoldable pub cancel_preview : Money → ℕ → Instant → Option Preview
unfolding is_paid refund_for credit_back_for
cancel_preview d user now =
    let b = d.world.booking in
    if not (b.borrower == user) && not (b.lender == user)
    then none
    else if not (is_paid b.status) || not (is_just_captured d.pay.status)
    then some nothing_paid
    else let r = refund_for (paid_of d) (party_of b user) now in
      some (preview_of r (credit_back_for (pos b.credit) (pos r.rent)))

-- The booking once that person has cancelled it.
abbrev pub cancelled_by : Money → Party → Instant → Money
cancelled_by d p now = record d {
  world = record d.world {
    booking = record d.world.booking { cancelled_by = some p; closed_at = some now };
  };
}

find-none :
    (b : ℕ) (es : Entries) → any (releases_for b) es ≡ false → find (releases_for b) es ≡ none
find-none b [] h = refl
find-none b (e ∷ es) h = ground (arith, find-none b es)

credit_back_bounds :
    (credit refund_rent : ℕ)
    → (n : ℕ) × (credit_back_for (pos credit) (pos refund_rent) ≡ pos n)
      × (n ≤ credit)
      × (n ≤ refund_rent)
unfolding credit_back_for
credit_back_bounds credit refund_rent =
    (min credit refund_rent, ground arith, omega arith, omega arith)

-- Giving back part of a hold that was not released.
release_part :
    (h : CreditEntry) (es : Entries) (b credit n : ℕ)
    → any (releases_for b) es ≡ false
    → h.amount ≡ pos 0 -ℤ pos credit
    → n ≤ credit
    → (release_hold h es b (some (pos n))).0 ≡ pos n
unfolding release_hold
release_part h es b credit n fresh amount within =
    let held : pos 0 -ℤ h.amount ≡ pos credit = rw amount (omega int_laws) in
    rw (held, fresh) (ground arith)

not_stranger : (x y : Bool) → (x || y) ≡ true → (not x && not y) ≡ false
not_stranger x y h = ground arith

give_back-credit :
    (b : Booking) (es : Entries) (refund_rent n : ℕ) (h : CreditEntry)
    → any (releases_for b.id) es ≡ false
    → find (holds_for b.id) es ≡ some h
    → h.amount ≡ pos 0 -ℤ pos b.credit
    → credit_back_for (pos b.credit) (pos refund_rent) ≡ pos n
    → n ≤ b.credit
    → (give_back b es refund_rent).0 ≡ pos n
unfolding give_back release_credit
give_back-credit b es refund_rent n h fresh held amount due within =
    rw (find-none b.id es fresh, give_back, due)
      (rw (held, release_credit) (release_part h es b.id b.credit n fresh amount within))

-- What a borrower or a lender is shown before they cancel a paid booking is what cancelling at that
-- instant refunds, whenever the refund is made: the same rent, fee, deposit and tier, the credit that
-- is then given back, and the cash that is then refunded; for a booking whose credit is held and was
-- not given back.
pub preview_agrees :
    (d : Money) (user : ℕ) (now later : Instant) (h : CreditEntry)
    → is_paid d.world.booking.status ≡ true
    → d.pay.status ≡ captured
    → (d.world.booking.borrower == user || d.world.booking.lender == user) ≡ true
    → any (releases_for d.world.booking.id) d.world.credits ≡ false
    → find (holds_for d.world.booking.id) d.world.credits ≡ some h
    → h.amount ≡ pos 0 -ℤ pos d.world.booking.credit
    → let d' = cancelled_by d (party_of d.world.booking user) now in
      let r = policy_refund d' later in
      (back : ℕ) × ((give_back d'.world.booking d.world.credits r.rent).0 ≡ pos back)
      × (cancel_preview d user now
          ≡ some (record {
            refund = cash_of (refund_amounts r) back;
            rent = r.rent;
            fee = r.fee;
            deposit = r.deposit;
            credit_back = pos back;
            tier = some r.tier;
          }))
unfolding cancel_preview policy_refund cash_of refund_for give_back
preview_agrees d user now later h paid taken known fresh held amount =
    let b = d.world.booking in
    let r = refund_for (paid_of d) (party_of b user) now in
    let (n, due, within, rent_le) = credit_back_bounds b.credit r.rent in
    (
      n,
      give_back-credit (cancelled_by d (party_of b user) now).world.booking d.world.credits r.rent n
          h fresh held amount due within,
      rw (not_stranger (b.borrower == user) (b.lender == user) known, paid, taken, due) refl,
    )
