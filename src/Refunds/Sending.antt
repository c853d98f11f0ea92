-- ===== src/Refunds/Sending.antt =====
-- A refund that the provider accepts: its posting, and that it is never sent again.
use nivra.Prelude.{
  ℕ, ◌+◌, ◌≤◌, ◌≡◌, refl, Bool, true, Option, some, is_some, List, [], ◌∷◌, find, ok, arith, ◌==◌,
}
use nivra.Prelude.Int.{◌+ℤ◌}
use nivra.Ledger.{
  Amounts, gateway, Ledger, Line, EntryType, cash_of, post, is_balanced, txn_of, account_balance,
}
use nivra.Ledger.Balanced.{refund_postings-balanced}
use nivra.Ledger.Flow.{net, net-refund, post-net}
use nivra.Refunds.Rows.{Refund, RefundKind, Store, parts, has_id}
use nivra.Refunds.Service.{
  Reply, accepts, attempt, sent, accepted, recorded, claimed, claim_row, accept_row, is_claimable,
  commission_bps, lines_of, entry_type_of,
}
use nivra.Refunds.Bounds.{find-update_refund}

pub post-balanced :
    (g : Ledger) (kind : EntryType) (b : ℕ) (ref : Option ℕ) (ls : List Line)
    → is_balanced ls ≡ true
    → (g' : Ledger) × (post g kind b ref ls ≡ ok g')
unfolding post
post-balanced g kind b ref [] h = (g, refl)
post-balanced g kind b ref (l ∷ ls) h = (txn_of kind b ref (l ∷ ls) ∷ g, rw h refl)

sent_row_stays :
    (d : Store) (r : Refund) (reply : Reply)
    → find (has_id r.id) d.refunds ≡ some r
    → is_some r.provider_id ≡ true
    → attempt d r.id reply ≡ (d, ok (some r.id))
unfolding attempt is_claimable
sent_row_stays d r reply h known = rw (h, known, attempt, is_claimable) refl

pub attempt-recorded :
    (d : Store) (r : Refund) (ref : ℕ) (done : Bool) {g : Ledger}
    → find (has_id r.id) d.refunds ≡ some r
    → is_claimable r ≡ true
    → post d.ledger (entry_type_of r.split) d.booking (some ref) (lines_of r d.rent) ≡ ok g
    → attempt d r.id (accepts ref done) ≡ recorded (claimed d r) r ref done (ok g)
unfolding attempt sent accepted
attempt-recorded d r ref done h may posted = rw (h, attempt, may, posted) refl

-- When the provider accepts a split refund of at most the booking's rent, the send succeeds, the
-- gateway's balance moves by exactly the cash of the refund, and no later send of it does anything,
-- whatever the provider would answer.
pub attempt-accepted :
    (d : Store) (r : Refund) (kind : RefundKind) (a : Amounts) (credit_back ref : ℕ) (done : Bool)
    → find (has_id r.id) d.refunds ≡ some r
    → is_claimable r ≡ true
    → r.split ≡ parts kind a credit_back
    → a.rent ≤ d.rent
    → credit_back ≤ a.rent + a.fee + a.deposit
    → let (after, result) = attempt d r.id (accepts ref done) in
      (result ≡ ok (some r.id))
      × (account_balance after.ledger gateway
          ≡ account_balance d.ledger gateway +ℤ cash_of a credit_back)
      × ((reply : Reply) → attempt after r.id reply ≡ (after, ok (some r.id)))
unfolding recorded cash_of
attempt-accepted d r kind a credit_back ref done h may split within back =
    let balanced : is_balanced (lines_of r d.rent) ≡ true =
      rw split
        (refund_postings-balanced a credit_back d.rent commission_bps within back (omega arith)) in
    let (g, posted) =
      post-balanced d.ledger (entry_type_of r.split) d.booking (some ref) (lines_of r d.rent)
        balanced in
    let same_id : (r.id == r.id) ≡ true = ground arith in
    let first = find-update_refund r.id claim_row d.refunds r h same_id in
    let second =
      find-update_refund r.id (accept_row ref done) (claimed d r).refunds (claim_row r) first
        same_id in
    let flow =
      post-net d.ledger (entry_type_of r.split) d.booking (some ref) (lines_of r d.rent) gateway
        posted in
    let cash = (net-refund a credit_back d.rent commission_bps within back (omega arith)).3 in
    let moved : net gateway (lines_of r d.rent) ≡ cash_of a credit_back = rw split cash in
    rw (attempt-recorded d r ref done h may posted) (
      refl,
      rw (flow, moved) refl,
      λ reply. sent_row_stays _ (accept_row ref done (claim_row r)) reply second refl,
    )
