-- ===== src/Ledger/Balanced.antt =====
-- The postings of ledger.ts balance.
use nivra.Prelude.{
  ℕ, ◌+◌, ◌-◌, ◌≤◌, ◌≡◌, ◌↔◌, refl, true, false, ◌&&◌, and_iff, ap, sym, ◌∙◌, List, [], ◌∷◌, All,
  arith, Bool-cases, inl, inr, all,
}
use nivra.Prelude.Int.{
  ℤ, pos, ◌+ℤ◌, ◌-ℤ◌, ◌≤ℤ◌, int_laws, +ℤ_parts, leb_ℤ, ltb_ℤ, eq_of_parts, eq_ℤ_iff, zero_add,
}
use nivra.Rounding.{share_ℕ, share_of-pos, share_ℕ-le, share_ℕ-le_add}
use nivra.Ledger.Postings.{
  Line, debit_of, credit_of, drop_zero, sum_from, is_balanced, Amounts, capture_lines, refund_lines,
  capture_postings, refund_postings, commission_back,
}

-- A side's sum as a plain recursion.
unfoldable pub side_sum : (Line → ℤ) → List Line → ℤ
side_sum side [] = pos 0
side_sum side (l ∷ ls) = side l +ℤ side_sum side ls

pub sum_from-eq :
    (side : Line → ℤ) (s : ℤ) (ls : List Line) → sum_from side s ls ≡ s +ℤ side_sum side ls
unfolding sum_from side_sum
sum_from-eq side s [] = omega int_laws
sum_from-eq side s (l ∷ ls) = rw (sum_from-eq side (s +ℤ side l) ls) (omega int_laws)

pub sum_from-zero : (side : Line → ℤ) (ls : List Line) → sum_from side (pos 0) ls ≡ side_sum side ls
sum_from-zero side ls = sum_from-eq side (pos 0) ls ∙ zero_add (side_sum side ls)

abbrev pub IsNonneg : Line → Type 0
IsNonneg l = (pos 0 ≤ℤ l.debit) × (pos 0 ≤ℤ l.credit)

all-IsNonneg :
    (ls : List Line)
    → (all (λ l. leb_ℤ (pos 0) l.debit && leb_ℤ (pos 0) l.credit) ls ≡ true) ↔ All IsNonneg ls
all-IsNonneg [] = (λ h. tt, λ h. refl)
all-IsNonneg (l ∷ ls) =
    (λ h. ground (arith, (all-IsNonneg ls).0), λ h. ground (arith, (all-IsNonneg ls).1 h.1))

-- What `is_balanced` tests.
pub is_balanced_iff :
    (ls : List Line)
    → (is_balanced ls ≡ true) ↔ ((side_sum debit_of ls ≡ side_sum credit_of ls) × All IsNonneg ls)
unfolding is_balanced
is_balanced_iff ls =
    rw (sum_from-zero debit_of ls, sum_from-zero credit_of ls)
      (
        (λ h.
            let (same, nonneg) = (and_iff _ _).0 h in
            ((eq_ℤ_iff _ _).0 same, (all-IsNonneg ls).0 nonneg)),
        (λ h. (and_iff _ _).1 ((eq_ℤ_iff _ _).1 h.0, (all-IsNonneg ls).1 h.1)),
      )

pub zero_sides :
    (d c : ℤ) → pos 0 ≤ℤ d → pos 0 ≤ℤ c → ltb_ℤ (pos 0) (d +ℤ c) ≡ false → (d ≡ pos 0) × (c ≡ pos 0)
zero_sides d c hd hc h = (
  eq_of_parts d (pos 0) (ground (arith, +ℤ_parts d c)),
  eq_of_parts c (pos 0) (ground (arith, +ℤ_parts d c)),
)

-- Zero lines add nothing, so leaving them out keeps both sums and no side below zero.
drop_zero_sums :
    (ls : List Line)
    → All IsNonneg ls
    → (side_sum debit_of (drop_zero ls) ≡ side_sum debit_of ls)
      × (side_sum credit_of (drop_zero ls) ≡ side_sum credit_of ls)
      × All IsNonneg (drop_zero ls)
unfolding drop_zero side_sum
drop_zero_sums [] h = (refl, refl, tt)
drop_zero_sums (l ∷ ls) h =
    let (debits, credits, nonneg) = drop_zero_sums ls h.1 in
    elim (Bool-cases (ltb_ℤ (pos 0) (l.debit +ℤ l.credit))) [
      | inl kept ↦
          rw kept (ap (λ x. l.debit +ℤ x) debits, ap (λ x. l.credit +ℤ x) credits, (h.0, nonneg))
      | inr dropped ↦
          (let (no_debit, no_credit) = zero_sides l.debit l.credit h.0.0 h.0.1 dropped in
            rw dropped (
              debits ∙ sym (ap (λ x. x +ℤ side_sum debit_of ls) no_debit ∙ zero_add _),
              credits ∙ sym (ap (λ x. x +ℤ side_sum credit_of ls) no_credit ∙ zero_add _),
              nonneg,
            ))
    ]

pub is_balanced-drop_zero :
    (ls : List Line)
    → All IsNonneg ls
    → side_sum debit_of ls ≡ side_sum credit_of ls
    → is_balanced (drop_zero ls) ≡ true
is_balanced-drop_zero ls h e =
    let (debits, credits, nonneg) = drop_zero_sums ls h in
    (is_balanced_iff (drop_zero ls)).1 (debits ∙ e ∙ sym credits, nonneg)

pub capture-IsNonneg :
    (a : Amounts) (credit bps : ℕ)
    → credit ≤ a.rent + a.fee + a.deposit
    → bps ≤ 10000
    → All IsNonneg (capture_lines a credit bps)
unfolding capture_lines
capture-IsNonneg a credit bps h k =
    rw (share_of-pos a.rent bps) (omega (int_laws, share_ℕ-le a.rent bps k))

-- A captured payment posts a balanced transaction with no negative line, for a commission of at
-- most 100% and a credit of at most what the booking costs.
pub capture_postings-balanced :
    (a : Amounts) (credit bps : ℕ)
    → credit ≤ a.rent + a.fee + a.deposit
    → bps ≤ 10000
    → is_balanced (capture_postings a credit bps) ≡ true
unfolding capture_postings
capture_postings-balanced a credit bps h k =
    is_balanced-drop_zero _ (capture-IsNonneg a credit bps h k)
      (unfold side_sum capture_lines in omega int_laws)

-- The commission that goes back, as a difference of two commissions.
pub commission_back-eq :
    (refund total bps : ℕ)
    → refund ≤ total
    → commission_back refund total bps
      ≡ pos (share_ℕ total bps) -ℤ pos (share_ℕ (total - refund) bps)
unfolding commission_back
commission_back-eq refund total bps h =
    let e : pos total -ℤ pos refund ≡ pos (total - refund) = omega int_laws in
    rw (e, share_of-pos total bps, share_of-pos (total - refund) bps)

pub refund-IsNonneg :
    (refund : Amounts) (credit_back total_rent bps : ℕ)
    → refund.rent ≤ total_rent
    → credit_back ≤ refund.rent + refund.fee + refund.deposit
    → bps ≤ 10000
    → All IsNonneg (refund_lines refund credit_back total_rent bps)
unfolding refund_lines
refund-IsNonneg refund credit_back total_rent bps within h k =
    rw (commission_back-eq refund.rent total_rent bps within)
      (omega (int_laws, share_ℕ-le_add (total_rent - refund.rent) total_rent bps (omega arith) k))

-- Money going back to the borrower posts a balanced transaction with no negative line, for at most
-- the booking's rent, a credit of at most the refund, and a commission of at most 100%.
pub refund_postings-balanced :
    (refund : Amounts) (credit_back total_rent bps : ℕ)
    → refund.rent ≤ total_rent
    → credit_back ≤ refund.rent + refund.fee + refund.deposit
    → bps ≤ 10000
    → is_balanced (refund_postings refund credit_back total_rent bps) ≡ true
unfolding refund_postings
refund_postings-balanced refund credit_back total_rent bps within h k =
    is_balanced-drop_zero _ (refund-IsNonneg refund credit_back total_rent bps within h k)
      (unfold side_sum refund_lines in omega int_laws)
