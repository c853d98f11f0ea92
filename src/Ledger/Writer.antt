-- ===== src/Ledger/Writer.antt =====
-- `LedgerService` of apps/api/src/modules/payments/ledger.service.ts. The table is the list of its
-- transactions, the latest first; a transaction's id is its place, since ids are fresh.
use nivra.Prelude.{
  ℕ, Bool, not, ◌&&◌, Option, List, [], ◌∷◌, Result, ok, err, if◌then◌else◌, filter, take, length,
  ◌==◌,
}
use nivra.Prelude.Int.{ℤ, pos, ◌+ℤ◌, ◌-ℤ◌, eq_ℤ}
use nivra.Ledger.Postings.{
  Account, gateway, deposit_held, lender_payable, platform_revenue, goodwill, promotions, Line,
  same_account, is_balanced, sum_from, debit_of, credit_of,
}

pub data EntryType : Type 0 where
  payment_captured refund refund_goodwill refund_credit deposit_kept transfer : EntryType
  transfer_reversal : EntryType

pub record Txn : Type 0 where
  pub kind : EntryType
  pub booking : ℕ
  pub external_ref : Option ℕ
  pub lines : List Line

abbrev pub Ledger : Type 0
Ledger = List Txn

pub data Unbalanced : Type 0 where
  unbalanced : EntryType → Unbalanced

abbrev pub txn_of : EntryType → ℕ → Option ℕ → List Line → Txn
txn_of kind booking external_ref lines = record {
  kind = kind;
  booking = booking;
  external_ref = external_ref;
  lines = lines;
}

-- `post`, inside the caller's database transaction.
unfoldable pub post : Ledger → EntryType → ℕ → Option ℕ → List Line → Result Unbalanced Ledger
unfolding is_balanced
post g kind booking external_ref [] = ok g
post g kind booking external_ref (l ∷ ls) =
    if not (is_balanced (l ∷ ls))
    then err (unbalanced kind)
    else ok (txn_of kind booking external_ref (l ∷ ls) ∷ g)

-- `groupBy account` with the sums of a side over all entries.
unfoldable pub sum_account : Account → (Line → ℤ) → List Line → ℤ
sum_account a side [] = pos 0
sum_account a side (l ∷ ls) =
    let rest = sum_account a side ls in if same_account a l.account then side l +ℤ rest else rest

unfoldable pub ledger_sum : Account → (Line → ℤ) → Ledger → ℤ
unfolding sum_account
ledger_sum a side [] = pos 0
ledger_sum a side (t ∷ g) = sum_account a side t.lines +ℤ ledger_sum a side g

-- `balances[account] = c - d`.
unfoldable pub account_balance : Ledger → Account → ℤ
unfolding ledger_sum
account_balance g a = ledger_sum a credit_of g -ℤ ledger_sum a debit_of g

-- At most 50 transactions whose debits and credits differ (`HAVING SUM(debit) <> SUM(credit)`).
unfoldable pub unbalanced_txns : Ledger → List Txn
unbalanced_txns g = take 50 (
    filter
      (λ t. not (eq_ℤ (sum_from debit_of (pos 0) t.lines) (sum_from credit_of (pos 0) t.lines))) g)

pub record LedgerSummary : Type 0 where
  pub balances : Account → ℤ
  pub total_debit : ℤ
  pub total_credit : ℤ
  pub balanced : Bool
  pub unbalanced : List Txn

-- A total is the sum over the accounts' rows, as the loop in `summary` adds them.
unfoldable pub total_side : (Line → ℤ) → Ledger → ℤ
unfolding ledger_sum
total_side side g =
    ledger_sum gateway side g
    +ℤ ledger_sum deposit_held side g
    +ℤ ledger_sum lender_payable side g
    +ℤ ledger_sum platform_revenue side g
    +ℤ ledger_sum goodwill side g
    +ℤ ledger_sum promotions side g

unfoldable pub summary : Ledger → LedgerSummary
unfolding account_balance total_side unbalanced_txns
summary g =
    let debit = total_side debit_of g in
    let credit = total_side credit_of g in
    let bad = unbalanced_txns g in
    record {
      balances = account_balance g;
      total_debit = debit;
      total_credit = credit;
      balanced = eq_ℤ debit credit && length bad == 0;
      unbalanced = bad;
    }
