-- ===== src/Ledger/Postings.antt =====
-- apps/api/src/modules/payments/ledger.ts. What a booking holds (rent, fee, deposit, credit) is never
-- negative in the database; differences are integers, as in the source.
use nivra.Prelude.{ℕ, ◌+◌, Bool, ◌&&◌, List, [], ◌∷◌, ◌==◌, all, filter}
use nivra.Prelude.Int.{ℤ, pos, ◌+ℤ◌, ◌-ℤ◌, ltb_ℤ, leb_ℤ, eq_ℤ}
use nivra.Rounding.{share_of}

pub data Account : Type 0 where
  gateway deposit_held lender_payable platform_revenue goodwill promotions : Account

abbrev account_index : Account → ℕ
account_index gateway = 0
account_index deposit_held = 1
account_index lender_payable = 2
account_index platform_revenue = 3
account_index goodwill = 4
account_index promotions = 5

abbrev pub same_account : Account → Account → Bool
same_account a b = account_index a == account_index b

-- A side that the source leaves out is 0: every reader of a line takes `?? 0`.
pub record Line : Type 0 where
  pub account : Account
  pub debit : ℤ
  pub credit : ℤ

abbrev pub debit_line : Account → ℤ → Line
debit_line a x = record { account = a; debit = x; credit = pos 0 }

abbrev pub credit_line : Account → ℤ → Line
credit_line a x = record { account = a; debit = pos 0; credit = x }

pub record Amounts : Type 0 where
  pub rent : ℕ
  pub fee : ℕ
  pub deposit : ℕ

unfoldable pub commission_on : ℤ → ℕ → ℤ
commission_on rent bps = share_of rent bps

unfoldable pub lender_share : ℤ → ℕ → ℤ
unfolding commission_on
lender_share rent bps = rent -ℤ commission_on rent bps

-- `drop`: zero lines add nothing.
unfoldable pub drop_zero : List Line → List Line
drop_zero = filter (λ l. ltb_ℤ (pos 0) (l.debit +ℤ l.credit))

-- The lines before `drop`.
unfoldable pub capture_lines : Amounts → ℕ → ℕ → List Line
unfolding commission_on
capture_lines a credit bps =
    let commission = commission_on (pos a.rent) bps in
    debit_line gateway (pos (a.rent + a.fee + a.deposit) -ℤ pos credit)
    ∷ debit_line promotions (pos credit)
    ∷ credit_line deposit_held (pos a.deposit)
    ∷ credit_line lender_payable (pos a.rent -ℤ commission)
    ∷ credit_line platform_revenue (commission +ℤ pos a.fee)
    ∷ []

unfoldable pub capture_postings : Amounts → ℕ → ℕ → List Line
unfolding capture_lines
capture_postings a credit bps = drop_zero (capture_lines a credit bps)

-- The commission that goes back with `refund` of the rent.
unfoldable pub commission_back : ℕ → ℕ → ℕ → ℤ
unfolding commission_on
commission_back refund total_rent bps =
    commission_on (pos total_rent) bps -ℤ commission_on (pos total_rent -ℤ pos refund) bps

-- The lines before `drop`.
unfoldable pub refund_lines : Amounts → ℕ → ℕ → ℕ → List Line
refund_lines refund credit_back total_rent bps =
    let back = commission_back refund.rent total_rent bps in
    debit_line deposit_held (pos refund.deposit)
    ∷ debit_line lender_payable (pos refund.rent -ℤ back)
    ∷ debit_line platform_revenue (back +ℤ pos refund.fee)
    ∷ credit_line gateway (pos (refund.rent + refund.fee + refund.deposit) -ℤ pos credit_back)
    ∷ credit_line promotions (pos credit_back)
    ∷ []

unfoldable pub refund_postings : Amounts → ℕ → ℕ → ℕ → List Line
unfolding refund_lines commission_back
refund_postings refund credit_back total_rent bps =
    drop_zero (refund_lines refund credit_back total_rent bps)

unfoldable pub cash_of : Amounts → ℕ → ℤ
cash_of refund credit_back = pos (refund.rent + refund.fee + refund.deposit) -ℤ pos credit_back

unfoldable pub goodwill_postings : ℤ → List Line
goodwill_postings amount = debit_line goodwill amount ∷ credit_line gateway amount ∷ []

unfoldable pub transfer_postings : ℤ → List Line
transfer_postings amount = debit_line lender_payable amount ∷ credit_line gateway amount ∷ []

unfoldable pub deposit_keep_postings : ℤ → List Line
deposit_keep_postings amount =
    debit_line deposit_held amount ∷ credit_line lender_payable amount ∷ []

unfoldable pub reversal_postings : ℤ → List Line
reversal_postings amount = debit_line gateway amount ∷ credit_line lender_payable amount ∷ []

-- `lines.reduce((s, l) => s + ..., 0)`.
unfoldable pub sum_from : (Line → ℤ) → ℤ → List Line → ℤ
sum_from side s [] = s
sum_from side s (l ∷ ls) = sum_from side (s +ℤ side l) ls

abbrev pub debit_of : Line → ℤ
debit_of l = l.debit

abbrev pub credit_of : Line → ℤ
credit_of l = l.credit

unfoldable pub is_balanced : List Line → Bool
unfolding sum_from
is_balanced lines =
    eq_ℤ (sum_from debit_of (pos 0) lines) (sum_from credit_of (pos 0) lines)
    && all (λ l. leb_ℤ (pos 0) l.debit && leb_ℤ (pos 0) l.credit) lines
