-- ===== src/Refunds/Starting.antt =====
-- What starting a refund comes to: nothing, a refusal, or the send of a new row.
use nivra.Prelude.{
  ℕ, ◌+◌, ◌≤◌, ◌≡◌, refl, Bool, true, false, some, ◌∷◌, any, leb, if◌then◌else◌, ◌⊎◌, inl, inr,
  ◌==◌, ok, err, arith,
}
use nivra.Prelude.Int.{ℤ, pos, ◌+ℤ◌, ◌≤ℤ◌, ◌<ℤ◌, leb_ℤ, ltb_ℤ, pos_part}
use nivra.Ledger.{Amounts, gateway, account_balance, cash_of, post, refund, refund_postings}
use nivra.Ledger.Balanced.{refund_postings-balanced}
use nivra.Refunds.Rows.{
  RefundKind, Split, Store, parts, refunded, partially_refunded, update_refund,
}
use nivra.Refunds.Service.{
  too_large, Reply, accepts, attempt, create, create_parts, refundable, set_refunds, new_refund,
  is_claimable, commission_bps, recorded,
}
use nivra.Refunds.Bounds.{self_found}
use nivra.Refunds.Sending.{attempt-accepted, attempt-recorded, post-balanced}

pub create-refused :
    (d : Store) (id : ℕ) (split : Split) (amount : ℤ) (reply : Reply)
    → pos 0 <ℤ amount
    → refundable d <ℤ amount
    → create d id split amount reply ≡ (d, err (too_large (refundable d)))
unfolding create
create-refused d id split amount reply above over =
    let positive : leb_ℤ amount (pos 0) ≡ false = ground arith in
    let large : ltb_ℤ (refundable d) amount ≡ true = ground arith in rw (positive, large) refl

pub create-sent :
    (d : Store) (id : ℕ) (split : Split) (amount : ℤ) (reply : Reply)
    → pos 0 <ℤ amount
    → amount ≤ℤ refundable d
    → create d id split amount reply
      ≡ attempt (set_refunds d (new_refund id (pos_part amount) split ∷ d.refunds)) id reply
unfolding create
create-sent d id split amount reply above fits =
    let positive : leb_ℤ amount (pos 0) ≡ false = ground arith in
    let small : ltb_ℤ (refundable d) amount ≡ false = ground arith in rw (positive, small) refl

-- A split refund that fits and that the provider accepts.
pub create_parts-accepted :
    (d : Store) (id : ℕ) (kind : RefundKind) (a : Amounts) (credit_back ref : ℕ) (done : Bool)
    → pos 0 <ℤ cash_of a credit_back
    → cash_of a credit_back ≤ℤ refundable d
    → a.rent ≤ d.rent
    → credit_back ≤ a.rent + a.fee + a.deposit
    → let (d', r) = create_parts d id kind a credit_back (accepts ref done) in
      (r ≡ ok (some id))
      × (account_balance d'.ledger gateway
          ≡ account_balance d.ledger gateway +ℤ cash_of a credit_back)
unfolding create_parts
create_parts-accepted d id kind a credit_back ref done above fits within back =
    let split = parts kind a credit_back in
    let row = new_refund id (pos_part (cash_of a credit_back)) split in
    let sent =
      attempt-accepted (set_refunds d (row ∷ d.refunds)) row kind a credit_back ref done
        (self_found id (pos_part (cash_of a credit_back)) split d.refunds)
        (unfold is_claimable in refl) refl within back in
    rw (create-sent d id split (cash_of a credit_back) (accepts ref done) above fits)
      (sent.0, sent.1)

refunded_or :
    (b : Bool)
    → ((if b then refunded else partially_refunded) ≡ refunded)
      ⊎ ((if b then refunded else partially_refunded) ≡ partially_refunded)
refunded_or true = inl refl
refunded_or false = inr refl

-- The same, with what it posts and the row that it leaves.
pub create_parts-posted :
    (d : Store) (id : ℕ) (kind : RefundKind) (a : Amounts) (credit_back ref : ℕ) (done : Bool)
    → pos 0 <ℤ cash_of a credit_back
    → cash_of a credit_back ≤ℤ refundable d
    → a.rent ≤ d.rent
    → credit_back ≤ a.rent + a.fee + a.deposit
    → let (d', r) = create_parts d id kind a credit_back (accepts ref done) in
      (r ≡ ok (some id))
      × (post d.ledger refund d.booking
            (some ref)
            (refund_postings a credit_back d.rent commission_bps)
          ≡ ok d'.ledger)
      × (d'.booking ≡ d.booking)
      × (d'.rent ≡ d.rent)
      × ((p : Split → Bool)
          → p (parts kind a credit_back) ≡ true
          → any (λ q. p q.split) d'.refunds ≡ true)
      × ((d'.status ≡ refunded) ⊎ (d'.status ≡ partially_refunded))
unfolding create_parts recorded update_refund
create_parts-posted d id kind a credit_back ref done above fits within back =
    let split = parts kind a credit_back in
    let row = new_refund id (pos_part (cash_of a credit_back)) split in
    let d₁ = set_refunds d (row ∷ d.refunds) in
    let (g, posted) =
      post-balanced d.ledger refund d.booking (some ref)
        (refund_postings a credit_back d.rent commission_bps)
        (refund_postings-balanced a credit_back d.rent commission_bps within back (omega arith)) in
    let mine : (id == id) ≡ true = ground arith in
    rw
      (
        create-sent d id split (cash_of a credit_back) (accepts ref done) above fits,
        attempt-recorded d₁ row ref done
            (self_found id (pos_part (cash_of a credit_back)) split d.refunds)
            (unfold is_claimable in refl) posted,
      )
      (refl, posted, refl, refl, λ p h. rw (mine, mine, h) refl, refunded_or (leb d.amount _))
