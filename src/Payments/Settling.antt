-- ===== src/Payments/Settling.antt =====
-- The money at the end of a rental.
use nivra.Prelude.{
  ℕ, ◌-◌, ◌<◌, ◌≡◌, ◌⊎◌, refl, ap, ◌∙◌, inl, inr, Bool, true, false, Option, none, some, List, [],
  ◌∷◌, any, ok, arith, ltb, lt→ltb, ◌==◌, not, ◌||◌, Bool-cases,
}
use nivra.Prelude.Int.{pos, ◌+ℤ◌, ◌-ℤ◌, ◌≤ℤ◌, int_laws}
use nivra.Ledger.{
  Amounts, cash_of, Ledger, Line, post, deposit_held, lender_payable, account_balance, deposit_kept,
  refund, transfer, deposit_keep_postings, transfer_postings, refund_postings, txn_of, is_balanced,
  sum_from, sum_account,
}
use nivra.Ledger.Flow.{net, net-refund, post-net}
use nivra.Refunds.Rows.{PaymentStatus, Store, deposit_return, parts, goodwill}
use nivra.Refunds.Service.{accepts as takes, create_parts, commission_bps, is_captured, refundable}
use nivra.Refunds.Starting.{create_parts-posted}
use nivra.Payouts.Transfers.{Transfer, accepts, released, release}
use nivra.Payouts.Booking.{new_transfer, send_kept, send_found, release_all, was_paid}
use nivra.Payouts.Sent.{
  post-next, transfer_txn, transfer_postings-balanced, send_kept-released, held_rent, net-send,
}
use nivra.Payments.Rows.{
  Money, Outside, put_ledger, put_book, has_kind, keeps_deposit, kind_index, is_activated, bank_of,
  book_of,
}
use nivra.Payments.Confirming.{put_refund-ok}
use nivra.Payments.Cancelling.{keep_deposit, pay_lender, return_deposit}

abbrev paid_rent : ℕ → ℕ → ℕ → Transfer
paid_rent amount ref attempts = record (held_rent amount ref attempts) { status = released }

-- The transfer of a kept deposit, once it was made.
abbrev paid_kept : ℕ → ℕ → Transfer
paid_kept kept ref = record (new_transfer kept false true) {
  status = released;
  provider_id = some ref;
  attempts = 1;
}

pub zero_or : (n : ℕ) → (n ≡ 0) ⊎ (0 < n)
zero_or n = ground arith

keep_postings-balanced : (x : ℕ) → is_balanced (deposit_keep_postings (pos x)) ≡ true
unfolding is_balanced sum_from deposit_keep_postings ◌+ℤ◌
keep_postings-balanced x = ground arith

net-keep :
    (x : ℕ)
    → (net lender_payable (deposit_keep_postings (pos x)) ≡ pos x)
      × (net deposit_held (deposit_keep_postings (pos x)) ≡ pos 0 -ℤ pos x)
unfolding net deposit_keep_postings sum_account
net-keep x = (omega int_laws, omega int_laws)

-- The first step: what is kept moves from the deposit to what is owed to the lender.
pub keep_deposit-done :
    (kept : ℕ) (d : Money)
    → any (keeps_deposit d.pay.booking) d.pay.ledger ≡ false
    → (g : Ledger) × (keep_deposit kept d ≡ (put_ledger d g, ok tt))
      × (account_balance g lender_payable ≡ account_balance d.pay.ledger lender_payable +ℤ pos kept)
      × (account_balance g deposit_held ≡ account_balance d.pay.ledger deposit_held -ℤ pos kept)
      × ((kept ≡ 0) ⊎ (any (keeps_deposit d.pay.booking) g ≡ true))
unfolding keep_deposit
keep_deposit-done kept d fresh = elim (zero_or kept) [
  | inl nothing ↦ (
    d.pay.ledger,
    rw nothing refl,
    rw nothing (omega int_laws),
    rw nothing (omega int_laws),
    inl nothing,
  )
  | inr some_kept ↦
      (let ls = deposit_keep_postings (pos kept) in
        let b = d.pay.booking in
        let positive : ltb 0 kept ≡ true = lt→ltb 0 kept some_kept in
        let posted : post d.pay.ledger deposit_kept b none ls
            ≡ ok (txn_of deposit_kept b none ls ∷ d.pay.ledger) =
          unfold deposit_keep_postings in
          post-next d.pay.ledger deposit_kept b none _ _ (keep_postings-balanced kept) in
        let lender = post-net d.pay.ledger deposit_kept b none ls lender_payable posted in
        let deposit = post-net d.pay.ledger deposit_kept b none ls deposit_held posted in
        let same : (b == b) ≡ true = ground arith in
        (
          txn_of deposit_kept b none ls ∷ d.pay.ledger,
          rw (positive, fresh, posted) refl,
          rw (lender, (net-keep kept).0) refl,
          rw (deposit, (net-keep kept).1) (omega int_laws),
          inr (rw same refl),
        ))
]

-- No call pays or releases anything more for these rows.
abbrev pub IsPaidOff : ℕ → List Transfer → Type 0
IsPaidOff kept ts = (o : Outside) (d : Money) → d.transfers ≡ ts → pay_lender o kept d ≡ (d, ok tt)

rent-IsPaidOff : (amount ref attempts : ℕ) → IsPaidOff 0 (paid_rent amount ref attempts ∷ [])
unfolding pay_lender send_kept release_all
rent-IsPaidOff amount ref attempts o d h = rw h refl

kept-IsPaidOff :
    (kept amount ref k_ref attempts : ℕ)
    → IsPaidOff kept (paid_kept kept k_ref ∷ paid_rent amount ref attempts ∷ [])
unfolding pay_lender send_kept release_all send_found
kept-IsPaidOff kept amount ref k_ref attempts o d h =
    elim (Bool-cases (kept == 0 || not (was_paid d.pay.status))) [
      | inl nothing ↦ rw (h, nothing) refl
      | inr sends ↦ rw (h, sends) refl
    ]

captured_paid : (s : PaymentStatus) → is_captured s ≡ true → was_paid s ≡ true
captured_paid s h = ground arith

-- The second step: the rent is released, and what is kept is transferred.
pub pay_lender-done :
    (o : Outside) (kept amount ref attempts k_ref : ℕ) (d : Money)
    → d.transfers ≡ held_rent amount ref attempts ∷ []
    → o.granted (held_rent amount ref attempts) ≡ true
    → is_activated d.account ≡ true
    → o.transfer_reply (new_transfer kept false true) ≡ accepts k_ref
    → is_captured d.pay.status ≡ true
    → (g : Ledger) × (ts : List Transfer) × (pay_lender o kept d
        ≡ (record (put_ledger d g) { transfers = ts }, ok tt))
      × (account_balance g lender_payable ≡ account_balance d.pay.ledger lender_payable -ℤ pos kept)
      × (account_balance g deposit_held ≡ account_balance d.pay.ledger deposit_held)
      × ((b : ℕ) → any (keeps_deposit b) g ≡ any (keeps_deposit b) d.pay.ledger)
      × IsPaidOff kept ts
unfolding pay_lender
pay_lender-done o kept amount ref attempts k_ref d held granted active reply paid =
    elim (zero_or kept) [
      | inl nothing ↦ (
        d.pay.ledger,
        paid_rent amount ref attempts ∷ [],
        unfold send_kept release_all release in rw (held, granted, nothing) refl,
        rw nothing (omega int_laws),
        refl,
        λ b. refl,
        rw nothing (rent-IsPaidOff amount ref attempts),
      )
      | inr some_kept ↦
          (let g = transfer_txn d.pay.booking k_ref kept ∷ d.pay.ledger in
            let may : was_paid d.pay.status ≡ true = captured_paid d.pay.status paid in
            let b = record (book_of d) { transfers = paid_rent amount ref attempts ∷ [] } in
            let freed : release_all (book_of d) (bank_of d o) ≡ b =
              unfold release_all release in rw (held, granted) refl in
            let sent =
              send_kept-released b kept k_ref (bank_of d o) some_kept may refl active reply in
            let ls = transfer_postings (pos kept) in
            let posted : post d.pay.ledger transfer d.pay.booking (some k_ref) ls ≡ ok g =
              unfold transfer_postings in
              post-next d.pay.ledger transfer d.pay.booking (some k_ref) _ _
                (transfer_postings-balanced kept) in
            let lender =
              post-net d.pay.ledger transfer d.pay.booking (some k_ref) ls lender_payable posted in
            let deposit =
              post-net d.pay.ledger transfer d.pay.booking (some k_ref) ls deposit_held posted in
            (
              g,
              paid_kept kept k_ref ∷ paid_rent amount ref attempts ∷ [],
              ap (λ x. put_book d (send_kept x kept (bank_of d o))) freed
                  ∙ ap (λ x. put_book d x) sent,
              rw (lender, (net-send kept).0) (omega int_laws),
              rw (deposit, (net-send kept).1) (omega int_laws),
              λ x. refl,
              kept-IsPaidOff kept amount ref k_ref attempts,
            ))
    ]

-- Posting a refund keeps no deposit.
post-keeps :
    (c : ℕ) (g : Ledger) (b : ℕ) (ref : Option ℕ) (ls : List Line) {g' : Ledger}
    → post g refund b ref ls ≡ ok g'
    → any (keeps_deposit c) g' ≡ any (keeps_deposit c) g
unfolding post
post-keeps c g b ref [] h = ground arith
post-keeps c g b ref (l ∷ ls) h = ground arith

-- The third step: the rest of the deposit goes back to the borrower.
pub return_deposit-done :
    (o : Outside) (back ref : ℕ) (processed : Bool) (d : Money)
    → any (has_kind deposit_return) d.pay.refunds ≡ false
    → o.refund_reply ≡ takes ref processed
    → pos back ≤ℤ refundable d.pay
    → (p : Store) × (return_deposit o back d ≡ (record d { pay = p }, ok tt))
      × (account_balance p.ledger lender_payable ≡ account_balance d.pay.ledger lender_payable)
      × (account_balance p.ledger deposit_held
          ≡ account_balance d.pay.ledger deposit_held -ℤ pos back)
      × (p.booking ≡ d.pay.booking)
      × ((b : ℕ) → any (keeps_deposit b) p.ledger ≡ any (keeps_deposit b) d.pay.ledger)
      × ((back ≡ 0) ⊎ (any (has_kind deposit_return) p.refunds ≡ true))
unfolding return_deposit cash_of
return_deposit-done o back ref processed d fresh reply fits = elim (zero_or back) [
  | inl nothing ↦
      (d.pay, rw nothing refl, refl, rw nothing (omega int_laws), refl, λ b. refl, inl nothing)
  | inr some_back ↦
      (let a : Amounts = record { rent = 0; fee = 0; deposit = back } in
        let positive : ltb 0 back ≡ true = lt→ltb 0 back some_back in
        let cash : cash_of a 0 ≡ pos back = omega int_laws in
        let (sent, posted, same, rents, kinds, status) =
          create_parts-posted d.pay o.refund_id deposit_return a 0 ref processed
            (rw cash (omega arith)) (rw cash fits) (omega arith) (omega arith) in
        let p = (create_parts d.pay o.refund_id deposit_return a 0 (takes ref processed)).0 in
        let flow =
          net-refund a 0 d.pay.rent commission_bps (omega arith) (omega arith) (omega arith) in
        let ls = refund_postings a 0 d.pay.rent commission_bps in
        let lender =
          post-net d.pay.ledger refund d.pay.booking (some ref) ls lender_payable posted in
        let deposit =
          post-net d.pay.ledger refund d.pay.booking (some ref) ls deposit_held posted in
        let whole : d.pay.rent - 0 ≡ d.pay.rent = omega arith in
        let kept =
          put_refund-ok d (create_parts d.pay o.refund_id deposit_return a 0 (takes ref processed))
            sent in
        (
          p,
          rw (positive, fresh, reply) kept,
          rw (lender, flow.1, whole) (omega int_laws),
          rw (deposit, flow.0) (omega int_laws),
          same,
          λ b. post-keeps b d.pay.ledger d.pay.booking (some ref) ls posted,
          inr (
              kinds
                (λ s. elim s [
                  | goodwill ↦ false
                  | parts kind x c ↦ kind_index deposit_return == kind_index kind
                ])
                refl),
        ))
]
