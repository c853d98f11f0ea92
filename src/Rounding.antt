-- ===== src/Rounding.antt =====
-- `Math.round` of a share of an amount, in basis points, and its laws.
use nivra.Prelude.{ℕ, ◌+◌, ◌-◌, ◌*◌, ◌/◌, ◌≤◌, ◌≡◌, arith}
use mathlib.Core.Path.{subst}
use nivra.Prelude.Int.{ℤ, pos, ◌+ℤ◌, round_div, mul_ℕ}

-- `Math.round((amount * bps) / 10_000)`, halves up. The products of the program stay far below
-- 2 ^ 53, where the quotient of two integral doubles is rounded to the same integer.
unfoldable pub share_of : ℤ → ℕ → ℤ
unfolding round_div mul_ℕ
share_of amount bps = round_div (mul_ℕ amount bps) 10000

-- The same on natural numbers.
unfoldable pub share_ℕ : ℕ → ℕ → ℕ
share_ℕ n bps = (2 * (n * bps) + 10000) / 20000

pub share_of-pos : (n bps : ℕ) → share_of (pos n) bps ≡ pos (share_ℕ n bps)
unfolding share_of share_ℕ ◌+ℤ◌
share_of-pos n bps = ground arith

mul_le : (n bps : ℕ) → bps ≤ 10000 → n * bps ≤ n * 10000
mul_le n bps h = grind arith

-- A share is at most the whole.
pub share_ℕ-le : (n bps : ℕ) → bps ≤ 10000 → share_ℕ n bps ≤ n
unfolding share_ℕ
share_ℕ-le n bps h = omega (arith, mul_le n bps h)

-- Shares grow with the amount, by no more than the amount does.
pub share_ℕ-add :
    (n k bps : ℕ)
    → bps ≤ 10000
    → (share_ℕ n bps ≤ share_ℕ (n + k) bps) × (share_ℕ (n + k) bps ≤ share_ℕ n bps + k)
unfolding share_ℕ
share_ℕ-add n k bps h = (omega (arith, mul_le k bps h), omega (arith, mul_le k bps h))

-- The same for an amount and a smaller one.
pub share_ℕ-le_add :
    (m n bps : ℕ)
    → m ≤ n
    → bps ≤ 10000
    → (share_ℕ m bps ≤ share_ℕ n bps) × (share_ℕ n bps ≤ share_ℕ m bps + (n - m))
share_ℕ-le_add m n bps le h =
    let e : m + (n - m) ≡ n = omega arith in
    subst (λ t. (share_ℕ m bps ≤ share_ℕ t bps) × (share_ℕ t bps ≤ share_ℕ m bps + (n - m))) e
      (share_ℕ-add m (n - m) bps h)
