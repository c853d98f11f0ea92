-- ===== src/Ledger/Flow.antt =====
-- How the postings of ledger.ts move the balance of each account.
use nivra.Prelude.{
  ℕ, ◌+◌, ◌-◌, ◌≤◌, ◌≡◌, refl, sym, ◌∙◌, none, Bool-cases, inl, inr, List, [], ◌∷◌, All, Option, ok,
  err, arith,
}
use nivra.Prelude.Int.{ℤ, pos, ◌+ℤ◌, ◌-ℤ◌, int_laws, ltb_ℤ, zero_add}
use nivra.Rounding.{share_of-pos}
use nivra.Ledger.Postings.{
  Account, gateway, deposit_held, lender_payable, platform_revenue, promotions, Line, debit_of,
  credit_of, drop_zero, is_balanced, Amounts, capture_lines, refund_lines, capture_postings,
  refund_postings, commission_on, lender_share, same_account, deposit_keep_postings,
  transfer_postings,
}
use nivra.Ledger.Writer.{
  transfer, deposit_kept, txn_of, unbalanced, EntryType, payment_captured, refund, Ledger, post,
  sum_account, ledger_sum, account_balance,
}
use nivra.Ledger.Balanced.{
  IsNonneg, zero_sides, commission_back-eq, capture-IsNonneg, refund-IsNonneg,
}

-- What a posting adds to an account's balance.
unfoldable pub net : Account → List Line → ℤ
net a ls = sum_account a credit_of ls -ℤ sum_account a debit_of ls

-- A posting that is accepted adds its lines to the sums of every account.
pub post-ledger_sum :
    (a : Account) (side : Line → ℤ) (g : Ledger) (kind : EntryType) (b : ℕ) (ref : Option ℕ)
    (ls : List Line) {g' : Ledger}
    → post g kind b ref ls ≡ ok g'
    → ledger_sum a side g' ≡ sum_account a side ls +ℤ ledger_sum a side g
unfolding post ledger_sum
post-ledger_sum a side g kind b ref [] {g' = g'} h =
    let e : g ≡ g' = cc in rw (← e) (sym (zero_add (ledger_sum a side g)))
post-ledger_sum a side g kind b ref (l ∷ ls) {g' = g'} h =
    elim (Bool-cases (is_balanced (l ∷ ls))) [
      | inl good ↦
          (let fits : ok (txn_of kind b ref (l ∷ ls) ∷ g) ≡ ok g' = rw good at h in
            let e : txn_of kind b ref (l ∷ ls) ∷ g ≡ g' = cc in rw (← e) refl)
      | inr bad ↦ (let refused : err (unbalanced kind) ≡ ok g' = rw bad at h in cc)
    ]

pub post-net :
    (g : Ledger) (kind : EntryType) (b : ℕ) (ref : Option ℕ) (ls : List Line) (a : Account)
    {g' : Ledger}
    → post g kind b ref ls ≡ ok g'
    → account_balance g' a ≡ account_balance g a +ℤ net a ls
unfolding account_balance net
post-net g kind b ref ls a h =
    rw (post-ledger_sum a credit_of g kind b ref ls h, post-ledger_sum a debit_of g kind b ref ls h)
      (omega int_laws)

sum_account-zero :
    (a : Account) (side : Line → ℤ) (l : Line) (ls : List Line)
    → side l ≡ pos 0
    → sum_account a side (l ∷ ls) ≡ sum_account a side ls
unfolding sum_account
sum_account-zero a side l ls h = elim (Bool-cases (same_account a l.account)) [
  | inl same ↦ rw (same, h) (zero_add (sum_account a side ls))
  | inr other ↦ rw other
]

sum_account-cons :
    (a : Account) (side : Line → ℤ) (l : Line) (xs ys : List Line)
    → sum_account a side xs ≡ sum_account a side ys
    → sum_account a side (l ∷ xs) ≡ sum_account a side (l ∷ ys)
unfolding sum_account
sum_account-cons a side l xs ys h = rw h

-- Zero lines move nothing.
sum_account-drop_zero :
    (a : Account) (ls : List Line)
    → All IsNonneg ls
    → (sum_account a debit_of (drop_zero ls) ≡ sum_account a debit_of ls)
      × (sum_account a credit_of (drop_zero ls) ≡ sum_account a credit_of ls)
unfolding drop_zero
sum_account-drop_zero a [] h = (refl, refl)
sum_account-drop_zero a (l ∷ ls) h =
    let (debits, credits) = sum_account-drop_zero a ls h.1 in
    elim (Bool-cases (ltb_ℤ (pos 0) (l.debit +ℤ l.credit))) [
      | inl kept ↦
          rw kept
            (sum_account-cons a debit_of l _ _ debits, sum_account-cons a credit_of l _ _ credits)
      | inr dropped ↦
          (let (no_debit, no_credit) = zero_sides l.debit l.credit h.0.0 h.0.1 dropped in
            rw dropped (
              debits ∙ sym (sum_account-zero a debit_of l ls no_debit),
              credits ∙ sym (sum_account-zero a credit_of l ls no_credit),
            ))
    ]

net-drop_zero : (a : Account) (ls : List Line) → All IsNonneg ls → net a (drop_zero ls) ≡ net a ls
unfolding net
net-drop_zero a ls h = let (debits, credits) = sum_account-drop_zero a ls h in rw (debits, credits)

-- What a captured payment adds to each account.
pub net-capture :
    (a : Amounts) (credit bps : ℕ)
    → credit ≤ a.rent + a.fee + a.deposit
    → bps ≤ 10000
    → let ls = capture_postings a credit bps in
      (net deposit_held ls ≡ pos a.deposit)
      × (net lender_payable ls ≡ lender_share (pos a.rent) bps)
      × (net platform_revenue ls ≡ commission_on (pos a.rent) bps +ℤ pos a.fee)
      × (net gateway ls ≡ pos credit -ℤ pos (a.rent + a.fee + a.deposit))
      × (net promotions ls ≡ pos 0 -ℤ pos credit)
unfolding capture_postings
net-capture a credit bps h k =
    let d = λ (x : Account).
      net-drop_zero x (capture_lines a credit bps) (capture-IsNonneg a credit bps h k) in
    rw (d deposit_held, d lender_payable, d platform_revenue, d gateway, d promotions)
      (unfold net sum_account lender_share capture_lines in
        (omega int_laws, omega int_laws, omega int_laws, omega int_laws, omega int_laws))

-- What a refund adds to each account: the lender and Nivra give up their shares of the rent that
-- goes back, computed as the source does, from the whole rent and the rent that is kept.
pub net-refund :
    (r : Amounts) (credit_back total_rent bps : ℕ)
    → r.rent ≤ total_rent
    → credit_back ≤ r.rent + r.fee + r.deposit
    → bps ≤ 10000
    → let ls = refund_postings r credit_back total_rent bps in
      let kept = total_rent - r.rent in
      (net deposit_held ls ≡ pos 0 -ℤ pos r.deposit)
      × (net lender_payable ls ≡ lender_share (pos kept) bps -ℤ lender_share (pos total_rent) bps)
      × (net platform_revenue ls
          ≡ commission_on (pos kept) bps -ℤ commission_on (pos total_rent) bps -ℤ pos r.fee)
      × (net gateway ls ≡ pos (r.rent + r.fee + r.deposit) -ℤ pos credit_back)
      × (net promotions ls ≡ pos credit_back)
unfolding refund_postings
net-refund r credit_back total_rent bps within h k =
    let d = λ (x : Account).
      net-drop_zero x (refund_lines r credit_back total_rent bps)
        (refund-IsNonneg r credit_back total_rent bps within h k) in
    rw (d deposit_held, d lender_payable, d platform_revenue, d gateway, d promotions)
      (unfold net sum_account lender_share commission_on refund_lines in
        rw
          (
            commission_back-eq r.rent total_rent bps within,
            share_of-pos (total_rent - r.rent) bps,
            share_of-pos total_rent bps,
          )
          (omega int_laws, omega int_laws, omega int_laws, omega int_laws, omega int_laws))

-- After a booking's payment is captured and part of it refunded, the accounts stand as if the
-- booking had been for the rent that is kept: the lender is owed their share of it, Nivra's revenue
-- is the commission on it and the fee kept, and the deposit not returned is still held.
refund_settles :
    (g g₁ g₂ : Ledger) (b : ℕ) (pay ref : Option ℕ) (a r : Amounts) (credit credit_back bps : ℕ)
    → credit ≤ a.rent
    → r.rent ≤ a.rent
    → credit_back ≤ r.rent
    → bps ≤ 10000
    → post g payment_captured b pay (capture_postings a credit bps) ≡ ok g₁
    → post g₁ refund b ref (refund_postings r credit_back a.rent bps) ≡ ok g₂
    → let kept = a.rent - r.rent in
      (account_balance g₂ lender_payable
        ≡ account_balance g lender_payable +ℤ lender_share (pos kept) bps)
      × (account_balance g₂ platform_revenue
          ≡ account_balance g platform_revenue
            +ℤ (commission_on (pos kept) bps +ℤ pos a.fee -ℤ pos r.fee))
      × (account_balance g₂ deposit_held
          ≡ account_balance g deposit_held +ℤ (pos a.deposit -ℤ pos r.deposit))
refund_settles g g₁ g₂ b pay ref a r credit credit_back bps hc hr hb k p₁ p₂ =
    let c = net-capture a credit bps (omega arith) k in
    let f = net-refund r credit_back a.rent bps hr (omega arith) k in
    let one =
      λ (x : Account). post-net g payment_captured b pay (capture_postings a credit bps) x p₁ in
    let two =
      λ (x : Account). post-net g₁ refund b ref (refund_postings r credit_back a.rent bps) x p₂ in
    rw
      (
        two lender_payable,
        two platform_revenue,
        two deposit_held,
        one lender_payable,
        one platform_revenue,
        one deposit_held,
        c.0,
        c.1,
        c.2,
        f.0,
        f.1,
        f.2,
      )
      (omega int_laws, omega int_laws, omega int_laws)

-- After a whole rental (payment, part of the deposit kept, both transfers to the lender, the rest
-- of the deposit returned) nothing is left owed to the lender and nothing is left of the deposit.
pub rental_settles :
    (g g₁ g₂ g₃ g₄ g₅ : Ledger) (b : ℕ) (pay r₁ r₂ r₃ : Option ℕ) (a : Amounts)
    (credit kept bps : ℕ)
    → credit ≤ a.rent
    → kept ≤ a.deposit
    → bps ≤ 10000
    → post g payment_captured b pay (capture_postings a credit bps) ≡ ok g₁
    → post g₁ transfer b r₁ (transfer_postings (lender_share (pos a.rent) bps)) ≡ ok g₂
    → post g₂ deposit_kept b none (deposit_keep_postings (pos kept)) ≡ ok g₃
    → post g₃ transfer b r₂ (transfer_postings (pos kept)) ≡ ok g₄
    → post g₄ refund b r₃
        (refund_postings (record { rent = 0; fee = 0; deposit = a.deposit - kept }) 0 a.rent bps)
      ≡ ok g₅
    → (account_balance g₅ lender_payable ≡ account_balance g lender_payable)
      × (account_balance g₅ deposit_held ≡ account_balance g deposit_held)
unfolding transfer_postings deposit_keep_postings
rental_settles g g₁ g₂ g₃ g₄ g₅ b pay r₁ r₂ r₃ a credit kept bps hc hk k p₁ p₂ p₃ p₄ p₅ =
    let back : Amounts = record { rent = 0; fee = 0; deposit = a.deposit - kept } in
    let c = net-capture a credit bps (omega arith) k in
    let f = net-refund back 0 a.rent bps (omega arith) (omega arith) k in
    let share = lender_share (pos a.rent) bps in
    let whole : a.rent - 0 ≡ a.rent = omega arith in
    let one =
      λ (x : Account). post-net g payment_captured b pay (capture_postings a credit bps) x p₁ in
    let two = λ (x : Account). post-net g₁ transfer b r₁ (transfer_postings share) x p₂ in
    let three =
      λ (x : Account). post-net g₂ deposit_kept b none (deposit_keep_postings (pos kept)) x p₃ in
    let four = λ (x : Account). post-net g₃ transfer b r₂ (transfer_postings (pos kept)) x p₄ in
    let five = λ (x : Account). post-net g₄ refund b r₃ (refund_postings back 0 a.rent bps) x p₅ in
    rw
      (
        five lender_payable,
        five deposit_held,
        four lender_payable,
        four deposit_held,
        three lender_payable,
        three deposit_held,
        two lender_payable,
        two deposit_held,
        one lender_payable,
        one deposit_held,
        c.0,
        c.1,
        f.0,
        f.1,
        whole,
      )
      (unfold net sum_account in (omega int_laws, omega int_laws))
