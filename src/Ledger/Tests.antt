-- ===== src/Ledger/Tests.antt =====
-- The ledger of one booking: 300 rupees of rent with 50 of credit, a deposit of 500, of which 200 are
-- kept.
use nivra.Prelude.{◌-◌, ◌≡◌, refl, true, none, some, [], Result, ok, err, arith}
use nivra.Prelude.Int.{pos, ◌+ℤ◌, ◌-ℤ◌}
use nivra.Rounding.{share_of}
use nivra.Ledger.Postings.{
  lender_payable, deposit_held, Amounts, capture_postings, refund_postings, transfer_postings,
  deposit_keep_postings, lender_share, drop_zero,
}
use nivra.Ledger.Writer.{
  payment_captured, refund, deposit_kept, transfer, Ledger, Unbalanced, post, summary,
  account_balance,
}
use nivra.Ledger.Flow.{rental_settles}
use nivra.Ledger.Summary.{Posted, start, more, over_accounts, summary_balanced}

abbrev rented : Amounts
rented = record { rent = 30000; fee = 0; deposit = 50000 }

abbrev half_back : Amounts
half_back = record { rent = 15000; fee = 0; deposit = 50000 }

abbrev taken : Result Unbalanced Ledger → Ledger
taken (ok g) = g
taken (err e) = []

abbrev g1 : Ledger
g1 = taken (post [] payment_captured 1 (some 9) (capture_postings rented 5000 1000))

abbrev g2 : Ledger
g2 = taken (post g1 transfer 1 (some 10) (transfer_postings (lender_share (pos 30000) 1000)))

abbrev g3 : Ledger
g3 = taken (post g2 deposit_kept 1 none (deposit_keep_postings (pos 20000)))

abbrev g4 : Ledger
g4 = taken (post g3 transfer 1 (some 11) (transfer_postings (pos 20000)))

abbrev g5 : Ledger
g5 = taken (
    post g4 refund 1 (some 12)
      (refund_postings (record { rent = 0; fee = 0; deposit = 50000 - 20000 }) 0 30000 1000))

abbrev cancelled_ledger : Ledger
cancelled_ledger = taken (post g1 refund 1 (some 13) (refund_postings half_back 2500 30000 1000))

rental_settles_example :
    (account_balance g5 lender_payable ≡ account_balance [] lender_payable)
    × (account_balance g5 deposit_held ≡ account_balance [] deposit_held)
unfolding post capture_postings refund_postings transfer_postings deposit_keep_postings lender_share
    drop_zero share_of ◌+ℤ◌ ◌-ℤ◌
rental_settles_example =
    rental_settles [] g1 g2 g3 g4 g5 1 (some 9) (some 10) (some 11) (some 12) rented 5000 20000 1000
      (omega arith) (omega arith) (omega arith) refl refl refl refl refl

posted_g1 : Posted g1
unfolding post capture_postings drop_zero share_of ◌+ℤ◌ ◌-ℤ◌
posted_g1 = more payment_captured 1 (some 9) (capture_postings rented 5000 1000) start refl

summary_balanced_example :
    ((summary g1).balanced ≡ true)
    × ((summary g1).unbalanced ≡ [])
    × ((summary g1).total_debit ≡ (summary g1).total_credit)
    × (over_accounts (summary g1).balances ≡ pos 0)
summary_balanced_example = summary_balanced g1 posted_g1
