-- ===== src/Refunds/Rows.antt =====
-- The rows of refunds.service.ts: a captured payment with its refunds, and the ledger they post to.
use nivra.Prelude.{ℕ, ◌+◌, Bool, true, false, ◌==◌, Option, List, [], ◌∷◌, if◌then◌else◌}
use nivra.Ledger.{Amounts, Ledger}

pub data PaymentStatus : Type 0 where
  created captured failed partially_refunded refunded : PaymentStatus

pub data RefundStatus : Type 0 where
  pending processed failed : RefundStatus

pub data RefundKind : Type 0 where
  cancellation late_payment deposit_return : RefundKind

-- A refund of one of the kinds above, split into rent, fee and deposit with the credit that goes back,
-- or goodwill (the kind MANUAL, which has no split).
pub data Split : Type 0 where
  parts : RefundKind → Amounts → ℕ → Split
  goodwill : Split

pub record Refund : Type 0 where
  pub id : ℕ
  pub amount : ℕ
  pub split : Split
  pub status : RefundStatus
  pub provider_id : Option ℕ
  pub attempts : ℕ

-- The payment row, its refunds, the booking's rent, the ledger, and the refunds that the provider
-- was asked for, the latest first.
pub record Store : Type 0 where
  pub amount : ℕ
  pub status : PaymentStatus
  pub booking : ℕ
  pub rent : ℕ
  pub refunds : List Refund
  pub ledger : Ledger
  pub asked : List ℕ

-- `status in COUNTED`.
abbrev pub is_counted : Refund → Bool
is_counted r = elim r.status [ RefundStatus.failed ↦ false | _ ↦ true ]

abbrev pub cost : Refund → ℕ
cost r = if is_counted r then r.amount else 0

-- The sum of the refunds that count.
unfoldable pub counted : List Refund → ℕ
counted [] = 0
counted (r ∷ rs) = cost r + counted rs

abbrev pub has_id : ℕ → Refund → Bool
has_id id r = r.id == id

-- `update where id`.
unfoldable pub update_refund : ℕ → (Refund → Refund) → List Refund → List Refund
update_refund id f [] = []
update_refund id f (r ∷ rs) =
    let rest = update_refund id f rs in if has_id id r then f r ∷ rest else r ∷ rest
