-- ===== src/Payouts/Cancelled.antt =====
-- The lender's side of a cancellation: the held rent comes back, a share of what is kept goes out.
use nivra.Prelude.{
  ℕ, ◌-◌, ◌<◌, ◌≡◌, ◌⊎◌, refl, ap, ◌∙◌, inl, inr, true, false, Bool, some, [], ◌∷◌, ok, arith, ltb,
  lt→ltb,
}
use nivra.Prelude.Int.{pos, ◌+ℤ◌, ◌-ℤ◌, int_laws}
use nivra.Ledger.{
  Ledger, Txn, post, deposit_held, lender_payable, account_balance, transfer, transfer_postings,
  transfer_reversal, reversal_postings, txn_of, is_balanced, sum_from, sum_account,
}
use nivra.Ledger.Flow.{net, post-net}
use nivra.Payouts.Transfers.{Transfer, accepts, reversed, reverse, reverse_as, taken_back}
use nivra.Payouts.Booking.{
  Book, Bank, new_transfer, share, was_paid, on_cancelled, reverse_rows, pay_share, then_pay,
}
use nivra.Payouts.Sent.{
  post-next, transfer_txn, transfer_postings-balanced, create_and_send-released, sent_book,
  held_rent, net-send, share-zero,
}

reversal_postings-balanced : (x : ℕ) → is_balanced (reversal_postings (pos x)) ≡ true
unfolding is_balanced sum_from reversal_postings ◌+ℤ◌
reversal_postings-balanced x = ground arith

net-reversal :
    (x : ℕ)
    → (net lender_payable (reversal_postings (pos x)) ≡ pos x)
      × (net deposit_held (reversal_postings (pos x)) ≡ pos 0)
unfolding net reversal_postings sum_account
net-reversal x = (omega int_laws, omega int_laws)

abbrev reversal_txn : ℕ → ℕ → ℕ → Txn
reversal_txn booking ref amount =
    txn_of transfer_reversal booking (some ref) (reversal_postings (pos amount))

abbrev taken_back_rent : ℕ → ℕ → ℕ → Transfer
taken_back_rent amount ref attempts = record (held_rent amount ref attempts) { status = reversed }

abbrev taken_back_book : Book → ℕ → ℕ → ℕ → Book
taken_back_book b amount ref attempts = record b {
  transfers = taken_back_rent amount ref attempts ∷ [];
  ledger = reversal_txn b.booking ref amount ∷ b.ledger;
}

-- The held rent is reversed.
reverse_rows-held :
    (booking : ℕ) (granted : Transfer → Bool) (g : Ledger) (amount ref attempts : ℕ)
    → granted (held_rent amount ref attempts) ≡ true
    → reverse_rows booking granted g (held_rent amount ref attempts ∷ [])
      ≡ (taken_back_rent amount ref attempts ∷ [], reversal_txn booking ref amount ∷ g, ok tt)
unfolding reverse_rows reverse reverse_as taken_back reversal_postings
reverse_rows-held booking granted g amount ref attempts grants =
    let posted =
      post-next g transfer_reversal booking (some ref) _ _ (reversal_postings-balanced amount) in
    rw grants (rw posted refl)

zero_or : (n : ℕ) → (n ≡ 0) ⊎ (0 < n)
zero_or n = ground arith

-- What is paid for the rent that the borrower does not get back.
pay_share-done :
    (b : Book) (kept ref : ℕ) (bank : Bank)
    → bank.active ≡ true
    → bank.reply (new_transfer (share kept) false false) ≡ accepts ref
    → was_paid b.payment ≡ true
    → (b' : Book) × (pay_share b kept bank ≡ (b', ok tt))
      × (account_balance b'.ledger lender_payable
          ≡ account_balance b.ledger lender_payable -ℤ pos (share kept))
      × (account_balance b'.ledger deposit_held ≡ account_balance b.ledger deposit_held)
unfolding pay_share
pay_share-done b kept ref bank active reply paid = elim (zero_or kept) [
  | inl nothing ↦
      (let none_paid : share kept ≡ 0 = rw nothing share-zero in
        (b, rw nothing refl, rw none_paid (omega int_laws), refl))
  | inr some_kept ↦
      (let positive : ltb 0 kept ≡ true = lt→ltb 0 kept some_kept in
        let ls = transfer_postings (pos (share kept)) in
        let posted : post b.ledger transfer b.booking (some ref) ls
            ≡ ok (transfer_txn b.booking ref (share kept) ∷ b.ledger) =
          unfold transfer_postings in
          post-next b.ledger transfer b.booking (some ref) _ _
            (transfer_postings-balanced (share kept)) in
        let lender = post-net b.ledger transfer b.booking (some ref) ls lender_payable posted in
        let deposit = post-net b.ledger transfer b.booking (some ref) ls deposit_held posted in
        (
          sent_book b (share kept) ref false,
          rw (positive, paid) (create_and_send-released b (share kept) ref false bank active reply),
          rw (lender, (net-send (share kept)).0) (omega int_laws),
          rw (deposit, (net-send (share kept)).1) (omega int_laws),
        ))
]

-- After a cancellation, with everything granted, the lender is owed the held rent more and the share
-- of the kept rent less.
pub on_cancelled-done :
    (b : Book) (refunded amount ref attempts s_ref : ℕ) (bank : Bank)
    → b.transfers ≡ held_rent amount ref attempts ∷ []
    → bank.granted (held_rent amount ref attempts) ≡ true
    → bank.active ≡ true
    → bank.reply (new_transfer (share (b.rent - refunded)) false false) ≡ accepts s_ref
    → was_paid b.payment ≡ true
    → (b' : Book) × (on_cancelled b refunded bank ≡ (b', ok tt))
      × (account_balance b'.ledger lender_payable
          ≡ account_balance b.ledger lender_payable
            +ℤ pos amount
            -ℤ pos (share (b.rent - refunded)))
      × (account_balance b'.ledger deposit_held ≡ account_balance b.ledger deposit_held)
unfolding on_cancelled
on_cancelled-done b refunded amount ref attempts s_ref bank held granted active reply paid =
    let ls = reversal_postings (pos amount) in
    let g = reversal_txn b.booking ref amount ∷ b.ledger in
    let posted : post b.ledger transfer_reversal b.booking (some ref) ls ≡ ok g =
      unfold reversal_postings in
      post-next b.ledger transfer_reversal b.booking (some ref) _ _
        (reversal_postings-balanced amount) in
    let lender =
      post-net b.ledger transfer_reversal b.booking (some ref) ls lender_payable posted in
    let deposit = post-net b.ledger transfer_reversal b.booking (some ref) ls deposit_held posted in
    let (b', e, lender', deposit') =
      pay_share-done (taken_back_book b amount ref attempts) (b.rent - refunded) s_ref bank active
        reply paid in
    let back = reverse_rows-held b.booking bank.granted b.ledger amount ref attempts granted in
    (
      b',
      ap
            (λ ts.
              then_pay b (b.rent - refunded) bank (reverse_rows b.booking bank.granted b.ledger ts))
            held
          ∙ ap (λ x. then_pay b (b.rent - refunded) bank x) back
          ∙ e,
      rw (lender', lender, (net-reversal amount).0) (omega int_laws),
      rw (deposit', deposit, (net-reversal amount).1) (omega int_laws),
    )
