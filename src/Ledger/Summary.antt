-- ===== src/Ledger/Summary.antt =====
-- What the admin's ledger summary shows (`LedgerService.summary`).
use nivra.Prelude.{
  ℕ, ◌≡◌, refl, ap, sym, ◌∙◌, true, Bool-cases, inl, inr, List, [], ◌∷◌, All, Option, ok, err,
  filter, not, and_iff, if◌then◌else◌,
}
use nivra.Prelude.Int.{ℤ, pos, ◌+ℤ◌, ◌-ℤ◌, int_laws, eq_ℤ, eq_ℤ_iff}
use nivra.Ledger.Postings.{
  Account, gateway, deposit_held, lender_payable, platform_revenue, goodwill, promotions, Line,
  debit_of, credit_of, sum_from, is_balanced, same_account,
}
use nivra.Ledger.Writer.{
  EntryType, Txn, txn_of, unbalanced, Ledger, post, sum_account, ledger_sum, total_side,
  account_balance, summary,
}
use nivra.Ledger.Balanced.{side_sum, sum_from-zero, is_balanced_iff}

-- A ledger that was written by `post` alone, from empty.
pub data Posted : Ledger → Type 0 where
  start : Posted []
  more :
      {g g' : Ledger} (kind : EntryType) (b : ℕ) (ref : Option ℕ) (ls : List Line)
      → Posted g
      → post g kind b ref ls ≡ ok g'
      → Posted g'

abbrev IsSound : Txn → Type 0
IsSound t = is_balanced t.lines ≡ true

post-IsSound :
    (g : Ledger) (kind : EntryType) (b : ℕ) (ref : Option ℕ) (ls : List Line) {g' : Ledger}
    → All IsSound g
    → post g kind b ref ls ≡ ok g'
    → All IsSound g'
unfolding post
post-IsSound g kind b ref [] {g' = g'} s h = let e : g ≡ g' = cc in rw (← e) s
post-IsSound g kind b ref (l ∷ ls) {g' = g'} s h = elim (Bool-cases (is_balanced (l ∷ ls))) [
  | inl good ↦
      (let fits : ok (txn_of kind b ref (l ∷ ls) ∷ g) ≡ ok g' = rw good at h in
        let e : txn_of kind b ref (l ∷ ls) ∷ g ≡ g' = cc in rw (← e) (good, s))
  | inr bad ↦ (let refused : err (unbalanced kind) ≡ ok g' = rw bad at h in cc)
]

Posted-IsSound : {g : Ledger} → Posted g → All IsSound g
Posted-IsSound start = tt
Posted-IsSound (more {g = g} kind b ref ls p h) = post-IsSound g kind b ref ls (Posted-IsSound p) h

-- Every line is in one account, so the accounts' sums add up to the sum of all lines.
abbrev pub over_accounts : (Account → ℤ) → ℤ
over_accounts f =
    f gateway
    +ℤ f deposit_held
    +ℤ f lender_payable
    +ℤ f platform_revenue
    +ℤ f goodwill
    +ℤ f promotions

over_accounts-pick :
    (b : Account) (x : ℤ) (f : Account → ℤ)
    → over_accounts (λ a. if same_account a b then x +ℤ f a else f a) ≡ x +ℤ over_accounts f
over_accounts-pick gateway x f = omega int_laws
over_accounts-pick deposit_held x f = omega int_laws
over_accounts-pick lender_payable x f = omega int_laws
over_accounts-pick platform_revenue x f = omega int_laws
over_accounts-pick goodwill x f = omega int_laws
over_accounts-pick promotions x f = omega int_laws

over_accounts-sum_account :
    (side : Line → ℤ) (ls : List Line)
    → over_accounts (λ a. sum_account a side ls) ≡ side_sum side ls
unfolding sum_account side_sum
over_accounts-sum_account side [] = omega int_laws
over_accounts-sum_account side (l ∷ ls) =
    over_accounts-pick l.account (side l) (λ a. sum_account a side ls)
    ∙ ap (λ x. side l +ℤ x) (over_accounts-sum_account side ls)

-- The sum of one side over every line of the ledger.
ledger_total : (Line → ℤ) → Ledger → ℤ
ledger_total side [] = pos 0
ledger_total side (t ∷ g) = side_sum side t.lines +ℤ ledger_total side g

total_side-eq : (side : Line → ℤ) (g : Ledger) → total_side side g ≡ ledger_total side g
unfolding total_side ledger_sum ledger_total
total_side-eq side [] = omega int_laws
total_side-eq side (t ∷ g) =
    rw (← over_accounts-sum_account side t.lines, ← total_side-eq side g) (omega int_laws)

ledger_total-IsSound :
    (g : Ledger) → All IsSound g → ledger_total debit_of g ≡ ledger_total credit_of g
unfolding ledger_total
ledger_total-IsSound [] s = refl
ledger_total-IsSound (t ∷ g) s =
    rw (((is_balanced_iff t.lines).0 s.0).0, ledger_total-IsSound g s.1)

txn_sums-IsSound :
    (t : Txn)
    → IsSound t
    → eq_ℤ (sum_from debit_of (pos 0) t.lines) (sum_from credit_of (pos 0) t.lines) ≡ true
txn_sums-IsSound t s = (eq_ℤ_iff _ _).1 (
    sum_from-zero debit_of t.lines
    ∙ ((is_balanced_iff t.lines).0 s).0
    ∙ sym (sum_from-zero credit_of t.lines))

differing-IsSound :
    (g : Ledger)
    → All IsSound g
    → filter
        (λ t. not (eq_ℤ (sum_from debit_of (pos 0) t.lines) (sum_from credit_of (pos 0) t.lines)))
        g
      ≡ []
differing-IsSound [] s = refl
differing-IsSound (t ∷ g) s = rw (txn_sums-IsSound t s.0) (differing-IsSound g s.1)

over_accounts-account_balance :
    (g : Ledger)
    → over_accounts (account_balance g) ≡ total_side credit_of g -ℤ total_side debit_of g
unfolding account_balance total_side
over_accounts-account_balance g = omega int_laws

-- A ledger that only `post` has written adds up: the summary finds no unbalanced transaction, the
-- total of the debits is that of the credits, and the balances of all accounts cancel out.
pub summary_balanced :
    (g : Ledger)
    → Posted g
    → ((summary g).balanced ≡ true)
      × ((summary g).unbalanced ≡ [])
      × ((summary g).total_debit ≡ (summary g).total_credit)
      × (over_accounts (summary g).balances ≡ pos 0)
unfolding summary
summary_balanced g p =
    let sound = Posted-IsSound p in
    let none_bad = differing-IsSound g sound in
    let same : total_side debit_of g ≡ total_side credit_of g =
      total_side-eq debit_of g ∙ ledger_total-IsSound g sound ∙ sym (total_side-eq credit_of g) in
    (
      (and_iff _ _).1 ((eq_ℤ_iff _ _).1 same, rw none_bad),
      rw none_bad,
      same,
      over_accounts-account_balance g ∙ rw same (omega int_laws),
    )
