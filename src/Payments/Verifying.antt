-- ===== src/Payments/Verifying.antt =====
-- `verify` of PaymentsService: the app reports that checkout succeeded. What the provider's check of
-- the signature answers is an argument.
use nivra.Prelude.{
  ap, ◌∙◌, ℕ, ◌≤◌, ◌+◌, ◌≡◌, refl, Bool, true, not, ◌||◌, Result, ok, err, arith, ◌==◌,
  if◌then◌else◌,
}
use nivra.Time.{Instant}
use nivra.Bookings.Status.{Status}
use nivra.Payments.Rows.{Money, Outside, MoneyError, Run}
use nivra.Payments.Capture.{capture, is_payable}
use nivra.Payments.Once.{capture_again}

pub data VerifyError : Type 0 where
  no_payment invalid_signature : VerifyError
  of_capture : MoneyError → VerifyError

-- The status that the booking has once the payment was captured.
abbrev verified : Run → Money × Result VerifyError Status
verified (d, err e) = (d, err (of_capture e))
verified (d, ok u) = (d, ok d.world.booking.status)

unfoldable pub verify :
    Outside → Money → ℕ → ℕ → ℕ → Bool → Instant → Money × Result VerifyError Status
unfolding capture
verify o d user order payment_id genuine now =
    if not (order == d.order) || not (d.world.booking.borrower == user)
    then (d, err no_payment)
    else if not genuine
    then (d, err invalid_signature)
    else verified (capture o d order payment_id now)

verify-own :
    (o : Outside) (d : Money) (user q : ℕ) (now : Instant)
    → d.world.booking.borrower ≡ user
    → verify o d user d.order q true now ≡ verified (capture o d d.order q now)
unfolding verify capture
verify-own o d user q now mine =
    let own_order : (d.order == d.order) ≡ true = ground arith in
    let own : (d.world.booking.borrower == user) ≡ true = ground arith in rw (own, own_order) refl

-- Once a payment was captured, whatever that led to, the borrower's genuine report of it succeeds,
-- changes nothing and answers with the booking's status; for a credit of at most what the booking
-- costs.
verify_after :
    (o later : Outside) (d : Money) (p q user : ℕ) (now soon : Instant)
    → is_payable d.pay.status ≡ true
    → d.world.booking.credit ≤ d.pay.rent + d.fee + d.world.booking.deposit
    → let d' = (capture o d d.order p now).0 in
      d'.world.booking.borrower ≡ user
      → verify later d' user d'.order q true soon ≡ (d', ok d'.world.booking.status)
verify_after o later d p q user now soon payable within mine =
    let d' = (capture o d d.order p now).0 in
    verify-own later d' user q soon mine
    ∙ ap verified (capture_again o later d p d'.order q now soon payable within)
