-- ===== src/Payments/Cancelled.antt =====
-- A cancelled paid booking, refunded and settled with the lender.
use nivra.Prelude.{
  ℕ, ◌-◌, ◌≤◌, ◌≡◌, refl, ap, ◌∙◌, Bool, true, false, some, [], ◌∷◌, any, ok, arith, ◌⊎◌, inl, inr,
}
use nivra.Prelude.Int.{pos, ◌+ℤ◌, ◌-ℤ◌, ◌≤ℤ◌, ◌<ℤ◌, eq_ℤ, int_laws}
use nivra.Time.{Instant}
use nivra.Ledger.{deposit_held, lender_payable, account_balance, cash_of, refund, refund_postings}
use nivra.Ledger.Flow.{net-refund, post-net}
use nivra.Bookings.Status.{admin}
use nivra.Bookings.Policy.{Refund}
use nivra.Bookings.Refunding.{refund_for_bounds}
use nivra.Credits.Entries.{Entries}
use nivra.Refunds.Rows.{PaymentStatus, refunded, partially_refunded, cancellation}
use nivra.Refunds.Service.{accepts as takes, commission_bps, create_parts, is_captured, refundable}
use nivra.Refunds.Starting.{create_parts-posted}
use nivra.Payouts.Transfers.{accepts}
use nivra.Payouts.Booking.{new_transfer, share, was_paid}
use nivra.Payouts.Sent.{held_rent, share-eq}
use nivra.Payouts.Cancelled.{on_cancelled-done}
use nivra.Payments.Rows.{
  Money, Outside, put_book, put_refund, and_then, bank_of, book_of, put_ledger, has_kind,
  is_activated,
}
use nivra.Payments.Confirming.{put_refund-ok}
use nivra.Payments.Settled.{and_then-ok}
use nivra.Payments.Cancelling.{
  refund_cancelled, refund_rest, refund_with, after_refund, policy_refund, give_back,
  refund_amounts, put_credits, paid_of, or_else,
}

-- The policy's refund is of at most the rent, and of the whole deposit.
policy_bounds :
    (d : Money) (now : Instant)
    → ((policy_refund d now).rent ≤ d.pay.rent)
      × ((policy_refund d now).deposit ≡ d.world.booking.deposit)
unfolding policy_refund
policy_bounds d now =
    let b =
      refund_for_bounds (paid_of d) (or_else d.world.booking.cancelled_by admin)
        (or_else d.world.booking.closed_at now) in
    (b.0, b.2)

refund_cancelled-starts :
    (o : Outside) (d : Money) (now : Instant) (back : ℕ) (es : Entries)
    → is_captured d.pay.status ≡ true
    → any (has_kind cancellation) d.pay.refunds ≡ false
    → give_back d.world.booking d.world.credits (policy_refund d now).rent ≡ (pos back, es)
    → refund_cancelled o d now ≡ refund_rest o (policy_refund d now) back (put_credits d es)
unfolding refund_cancelled
refund_cancelled-starts o d now back es paid fresh given =
    let r = policy_refund d now in
    let asked : refund_cancelled o d now
        ≡ refund_with o d r (give_back d.world.booking d.world.credits r.rent) =
      rw (paid, fresh) refl in
    asked ∙ ap (λ x. refund_with o d r x) given

refund_rest-cash :
    (o : Outside) (r : Refund) (back : ℕ) (d : Money)
    → pos 0 <ℤ cash_of (refund_amounts r) back
    → refund_rest o r back d
      ≡ and_then
          (put_refund d
            (create_parts d.pay o.refund_id cancellation (refund_amounts r) back o.refund_reply))
          (after_refund o r.rent)
unfolding refund_rest
refund_rest-cash o r back d above =
    let some_cash : eq_ℤ (cash_of (refund_amounts r) back) (pos 0) ≡ false = ground arith in
    rw some_cash refl

after_refund-done :
    (o : Outside) (back_rent amount ref attempts s_ref : ℕ) (d : Money)
    → d.transfers ≡ held_rent amount ref attempts ∷ []
    → o.granted (held_rent amount ref attempts) ≡ true
    → is_activated d.account ≡ true
    → o.transfer_reply (new_transfer (share (d.pay.rent - back_rent)) false false) ≡ accepts s_ref
    → was_paid d.pay.status ≡ true
    → (d' : Money) × (after_refund o back_rent d ≡ (d', ok tt))
      × (account_balance d'.pay.ledger lender_payable
          ≡ account_balance d.pay.ledger lender_payable
            +ℤ pos amount
            -ℤ pos (share (d.pay.rent - back_rent)))
      × (account_balance d'.pay.ledger deposit_held ≡ account_balance d.pay.ledger deposit_held)
unfolding after_refund
after_refund-done o back_rent amount ref attempts s_ref d held granted active reply paid =
    let (b', e, lender, deposit) =
      on_cancelled-done (book_of d) back_rent amount ref attempts s_ref (bank_of d o) held granted
        active reply paid in
    (
      record (put_ledger d b'.ledger) { transfers = b'.transfers },
      ap (λ x. put_book d x) e,
      lender,
      deposit,
    )

was_paid-refunded :
    (s : PaymentStatus) → (s ≡ refunded) ⊎ (s ≡ partially_refunded) → was_paid s ≡ true
was_paid-refunded s (inl e) = rw e refl
was_paid-refunded s (inr e) = rw e refl

-- Refunding a cancelled booking that was paid and whose rent transfer is held, when the provider
-- grants and accepts everything: the call succeeds, nothing more is owed to the lender than before
-- (the held rent comes back, and the lender is paid exactly their share of the rent that the policy
-- keeps), and exactly the deposit leaves the deposits held. (The policy's refund less the credit
-- given back, which is at most the refunded rent, is not zero and can be refunded; no cancellation
-- was refunded before.)
pub refund_cancelled_whole :
    (o : Outside) (d : Money) (now : Instant) (back : ℕ) (es : Entries)
    (ref attempts s_ref r_ref : ℕ) (processed : Bool)
    → is_captured d.pay.status ≡ true
    → any (has_kind cancellation) d.pay.refunds ≡ false
    → d.transfers ≡ held_rent (share d.pay.rent) ref attempts ∷ []
    → o.granted (held_rent (share d.pay.rent) ref attempts) ≡ true
    → is_activated d.account ≡ true
    → o.transfer_reply (new_transfer (share (d.pay.rent - (policy_refund d now).rent)) false false)
      ≡ accepts s_ref
    → o.refund_reply ≡ takes r_ref processed
    → give_back d.world.booking d.world.credits (policy_refund d now).rent ≡ (pos back, es)
    → back ≤ (policy_refund d now).rent
    → pos 0 <ℤ cash_of (refund_amounts (policy_refund d now)) back
    → cash_of (refund_amounts (policy_refund d now)) back ≤ℤ refundable d.pay
    → let (d', r) = refund_cancelled o d now in
      (r ≡ ok tt)
      × (account_balance d'.pay.ledger lender_payable ≡ account_balance d.pay.ledger lender_payable)
      × (account_balance d'.pay.ledger deposit_held
          ≡ account_balance d.pay.ledger deposit_held -ℤ pos d.world.booking.deposit)
refund_cancelled_whole o d now back es ref attempts s_ref r_ref processed paid fresh held granted
      active sends takes_back given within above fits =
    let r = policy_refund d now in
    let a = refund_amounts r in
    let (rent_le, deposit_eq) = policy_bounds d now in
    let d₀ = put_credits d es in
    let (sent, posted, booking, rent, kinds, status) =
      create_parts-posted d.pay o.refund_id cancellation a back r_ref processed above fits rent_le
        (omega arith) in
    let p = (create_parts d.pay o.refund_id cancellation a back (takes r_ref processed)).0 in
    let d₁ = record d₀ { pay = p } in
    let refunds =
      put_refund-ok d₀ (create_parts d.pay o.refund_id cancellation a back (takes r_ref processed))
        sent in
    let (d', e, lender, deposit) =
      after_refund-done o r.rent (share d.pay.rent) ref attempts s_ref d₁ held granted active
        (rw rent sends) (was_paid-refunded p.status status) in
    let flow = net-refund a back d.pay.rent commission_bps rent_le (omega arith) (omega arith) in
    let ls = refund_postings a back d.pay.rent commission_bps in
    let lender₁ =
      post-net d.pay.ledger refund d.pay.booking (some r_ref) ls lender_payable posted in
    let deposit₁ = post-net d.pay.ledger refund d.pay.booking (some r_ref) ls deposit_held posted in
    let run : refund_cancelled o d now ≡ (d', ok tt) =
      refund_cancelled-starts o d now back es paid fresh given
      ∙ refund_rest-cash o r back d₀ above
      ∙ and_then-ok
          (put_refund d₀ (create_parts d.pay o.refund_id cancellation a back o.refund_reply))
          (after_refund o r.rent) d₁ (d', ok tt) (rw takes_back refunds) e in
    rw run (
      refl,
      rw (lender, lender₁, flow.1, rent, share-eq d.pay.rent, share-eq (d.pay.rent - r.rent))
          (omega int_laws),
      rw (deposit, deposit₁, flow.0, deposit_eq) (omega int_laws),
    )
