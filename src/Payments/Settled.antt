-- ===== src/Payments/Settled.antt =====
-- A whole settlement, step by step.
use nivra.Prelude.{
  ℕ, ◌-◌, ◌≤◌, ◌≡◌, ◌⊎◌, refl, inl, inr, Bool, true, false, any, ok, arith, Bool-cases, not, ltb,
  ◌||◌, ◌∷◌, [],
}
use nivra.Prelude.Int.{pos, ◌-ℤ◌, ◌≤ℤ◌, int_laws}
use nivra.Ledger.{Ledger, deposit_held, lender_payable, account_balance}
use nivra.Bookings.Status.{completed, is}
use nivra.Refunds.Rows.{Store, deposit_return}
use nivra.Refunds.Service.{accepts as takes, is_captured, refundable}
use nivra.Payouts.Transfers.{accepts}
use nivra.Payouts.Booking.{new_transfer}
use nivra.Payouts.Sent.{held_rent}
use nivra.Payments.Rows.{
  Money, Outside, Run, and_then, put_ledger, has_kind, keeps_deposit, is_activated,
}
use nivra.Payments.Cancelling.{keep_deposit, pay_lender, return_deposit, settle, kept_of}
use nivra.Payments.Settling.{keep_deposit-done, pay_lender-done, return_deposit-done}

pub and_then-ok :
    (m : Run) (k : Money → Run) (d : Money) (r : Run) → m ≡ (d, ok tt) → k d ≡ r → and_then m k ≡ r
and_then-ok m k d r e h = rw e h

run_steps :
    (o : Outside) (d d₁ d₂ d₃ : Money)
    → (not (is d.world.booking.status completed) || not (is_captured d.pay.status)) ≡ false
    → keep_deposit (kept_of d) d ≡ (d₁, ok tt)
    → pay_lender o (kept_of d) d₁ ≡ (d₂, ok tt)
    → return_deposit o (d.world.booking.deposit - kept_of d) d₂ ≡ (d₃, ok tt)
    → settle o d ≡ (d₃, ok tt)
unfolding settle
run_steps o d d₁ d₂ d₃ runs e₁ e₂ e₃ =
    let rest = λ (x : Money).
      and_then (pay_lender o (kept_of d) x)
        (return_deposit o (d.world.booking.deposit - kept_of d)) in
    rw runs (
      and_then-ok (keep_deposit (kept_of d) d) rest d₁ (d₃, ok tt) e₁
        (and_then-ok (pay_lender o (kept_of d) d₁)
          (return_deposit o (d.world.booking.deposit - kept_of d)) d₂ (d₃, ok tt) e₂ e₃))

or_true : (b : Bool) → (b || true) ≡ true
or_true b = ground arith

keep_deposit-off :
    (kept : ℕ) (d : Money)
    → (kept ≡ 0) ⊎ (any (keeps_deposit d.pay.booking) d.pay.ledger ≡ true)
    → keep_deposit kept d ≡ (d, ok tt)
unfolding keep_deposit
keep_deposit-off kept d (inl e) = rw e refl
keep_deposit-off kept d (inr h) = rw (h, or_true (not (ltb 0 kept))) refl

return_deposit-off :
    (o : Outside) (back : ℕ) (d : Money)
    → (back ≡ 0) ⊎ (any (has_kind deposit_return) d.pay.refunds ≡ true)
    → return_deposit o back d ≡ (d, ok tt)
unfolding return_deposit
return_deposit-off o back d (inl e) = rw e refl
return_deposit-off o back d (inr h) = rw (h, or_true (not (ltb 0 back))) refl

-- Once the rows are paid off, the kept deposit posted and the rest returned, `settle` does nothing.
settle-done :
    (o : Outside) (d : Money)
    → (kept_of d ≡ 0) ⊎ (any (keeps_deposit d.pay.booking) d.pay.ledger ≡ true)
    → pay_lender o (kept_of d) d ≡ (d, ok tt)
    → (d.world.booking.deposit - kept_of d ≡ 0)
      ⊎ (any (has_kind deposit_return) d.pay.refunds ≡ true)
    → settle o d ≡ (d, ok tt)
unfolding settle
settle-done o d posted paid back =
    elim (Bool-cases
      (not (is d.world.booking.status completed) || not (is_captured d.pay.status))) [
        | inl shut ↦ rw shut refl
        | inr runs ↦
            run_steps o d d d d runs (keep_deposit-off (kept_of d) d posted) paid
              (return_deposit-off o (d.world.booking.deposit - kept_of d) d back)
      ]

-- What can be refunded does not depend on the ledger.
refundable-ledger :
    (p : Store) (g : Ledger) (back deposit : ℕ)
    → back ≤ deposit
    → pos deposit ≤ℤ refundable p
    → pos back ≤ℤ refundable (record p { ledger = g })
unfolding refundable
refundable-ledger p g back deposit h fits = omega arith

-- Settling a completed rental whose payment was captured and whose rent transfer is held, when the
-- provider grants and accepts everything: the call succeeds, nothing more is owed to the lender than
-- before, exactly the deposit leaves the deposits held (what the lender keeps and what goes back to
-- the borrower make it up), and settling again, with any answers, does nothing. (The deposit can
-- still be refunded, none of it was posted as kept or returned before.)
pub settle_whole :
    (o later : Outside) (d : Money) (amount ref attempts k_ref r_ref : ℕ) (processed : Bool)
    → d.world.booking.status ≡ completed
    → is_captured d.pay.status ≡ true
    → d.transfers ≡ held_rent amount ref attempts ∷ []
    → o.granted (held_rent amount ref attempts) ≡ true
    → is_activated d.account ≡ true
    → o.transfer_reply (new_transfer (kept_of d) false true) ≡ accepts k_ref
    → o.refund_reply ≡ takes r_ref processed
    → any (keeps_deposit d.pay.booking) d.pay.ledger ≡ false
    → any (has_kind deposit_return) d.pay.refunds ≡ false
    → pos d.world.booking.deposit ≤ℤ refundable d.pay
    → let (d', r) = settle o d in
      (r ≡ ok tt)
      × (account_balance d'.pay.ledger lender_payable ≡ account_balance d.pay.ledger lender_payable)
      × (account_balance d'.pay.ledger deposit_held
          ≡ account_balance d.pay.ledger deposit_held -ℤ pos d.world.booking.deposit)
      × (settle later d' ≡ (d', ok tt))
unfolding settle
settle_whole o later d amount ref attempts k_ref r_ref processed over paid held granted active sends
      takes_back fresh none_back fits =
    let kept = kept_of d in
    let back = d.world.booking.deposit - kept in
    let (g₁, e₁, lender₁, deposit₁, once₁) = keep_deposit-done kept d fresh in
    let d₁ = put_ledger d g₁ in
    let (g₂, ts, e₂, lender₂, deposit₂, same₂, off) =
      pay_lender-done o kept amount ref attempts k_ref d₁ held granted active sends paid in
    let d₂ = record (put_ledger d₁ g₂) { transfers = ts } in
    let (p, e₃, lender₃, deposit₃, same₃, keeps, once₃) =
      return_deposit-done o back r_ref processed d₂ none_back takes_back
        (refundable-ledger d.pay g₂ back d.world.booking.deposit (omega arith) fits) in
    let d₃ = record d₂ { pay = p } in
    let open_now : (not (is d.world.booking.status completed) || not (is_captured d.pay.status))
        ≡ false =
      rw (over, paid) refl in
    let posted : (kept ≡ 0) ⊎ (any (keeps_deposit p.booking) p.ledger ≡ true) = elim once₁ [
      | inl nothing ↦ inl nothing
      | inr once ↦ inr (rw (same₃, keeps d.pay.booking, same₂ d.pay.booking) once)
    ] in
    rw (run_steps o d d₁ d₂ d₃ open_now e₁ e₂ e₃) (
      refl,
      rw (lender₃, lender₂, lender₁) (omega int_laws),
      rw (deposit₃, deposit₂, deposit₁) (omega int_laws),
      settle-done later d₃ posted (off later d₃ refl) once₃,
    )
