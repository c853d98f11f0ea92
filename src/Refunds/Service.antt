-- ===== src/Refunds/Service.antt =====
-- `RefundsService`: what can be refunded, starting a refund, sending it, and its end. Only one call
-- runs at a time here; the provider's answer to the call that a send makes is an argument.
use nivra.Prelude.{
  ℕ, ◌+◌, Bool, true, false, not, ◌&&◌, ◌||◌, Option, none, some, is_some, List, [], ◌∷◌, find,
  Result, ok, err, leb, ◌==◌, if◌then◌else◌,
}
use nivra.Prelude.Int.{ℤ, pos, pos_part, ◌-ℤ◌, leb_ℤ, ltb_ℤ}
use nivra.Ledger.{
  Amounts, Ledger, Line, EntryType, Unbalanced, refund, refund_goodwill, cash_of, refund_postings,
  goodwill_postings, post,
}
use nivra.Refunds.Rows.{
  PaymentStatus, captured, partially_refunded, refunded, RefundStatus, pending, processed,
  RefundKind, Split, parts, goodwill, Refund, Store, counted, has_id, update_refund, is_counted,
}

pub data RefundError : Type 0 where
  too_large : ℤ → RefundError
  not_found not_balanced : RefundError

-- What the provider answers: it refuses (or cannot be reached), or accepts under its own id, at once
-- processed or not yet.
pub data Reply : Type 0 where
  refuses : Reply
  accepts : ℕ → Bool → Reply

-- `LISTING_RULES.commissionBps`.
abbrev pub commission_bps : ℕ
commission_bps = 1000

abbrev pub is_captured : PaymentStatus → Bool
is_captured captured = true
is_captured partially_refunded = true
is_captured s = false

unfoldable pub refundable : Store → ℤ
unfolding counted
refundable d = if is_captured d.status then pos d.amount -ℤ pos (counted d.refunds) else pos 0

abbrev pub set_refunds : Store → List Refund → Store
set_refunds d rs = record d { refunds = rs }

abbrev pub claim_row : Refund → Refund
claim_row r = record r { attempts = r.attempts + 1 }

abbrev pub fail_row : Refund → Refund
fail_row r = record r { status = RefundStatus.failed }

abbrev pub accept_row : ℕ → Bool → Refund → Refund
accept_row ref done r = record r {
  provider_id = some ref;
  status = if done then processed else pending;
}

abbrev has_failed : RefundStatus → Bool
has_failed RefundStatus.failed = true
has_failed s = false

abbrev is_pending : RefundStatus → Bool
is_pending pending = true
is_pending s = false

-- The condition of the claiming update; the attempts that it compares are those just read.
unfoldable pub is_claimable : Refund → Bool
is_claimable r = not (is_some r.provider_id) && (is_pending r.status || has_failed r.status)

-- The sum over counted refunds that the provider accepted.
unfoldable pub accepted_sum : List Refund → ℕ
accepted_sum [] = 0
accepted_sum (r ∷ rs) =
    let rest = accepted_sum rs in
    if is_counted r && is_some r.provider_id then r.amount + rest else rest

abbrev pub lines_of : Refund → ℕ → List Line
lines_of r rent = elim r.split [
  | goodwill ↦ goodwill_postings (pos r.amount)
  | parts kind a credit_back ↦ refund_postings a credit_back rent commission_bps
]

abbrev pub entry_type_of : Split → EntryType
entry_type_of goodwill = refund_goodwill
entry_type_of s = refund

-- The rows once the ledger has taken the posting; if it refuses, the transaction is rolled back.
unfoldable pub recorded :
    Store → Refund → ℕ → Bool → Result Unbalanced Ledger → Store × Result RefundError (Option ℕ)
unfolding update_refund accepted_sum
recorded d r ref done (err e) = (d, err not_balanced)
recorded d r ref done (ok g) =
    let rows = update_refund r.id (accept_row ref done) d.refunds in
    (
      record d {
        refunds = rows;
        ledger = g;
        status = if leb d.amount (accepted_sum rows) then refunded else partially_refunded;
      },
      ok (some r.id),
    )

-- The transaction after the provider has accepted.
unfoldable pub accepted : Store → Refund → ℕ → Bool → Store × Result RefundError (Option ℕ)
unfolding recorded post refund_postings goodwill_postings
accepted d r ref done =
    recorded d r ref done
      (post d.ledger (entry_type_of r.split) d.booking (some ref) (lines_of r d.rent))

-- The provider is asked for a claimed refund.
unfoldable pub sent : Store → Refund → Reply → Store × Result RefundError (Option ℕ)
unfolding update_refund accepted
sent d r refuses = (set_refunds d (update_refund r.id fail_row d.refunds), ok (some r.id))
sent d r (accepts ref done) = accepted d r ref done

abbrev pub claimed : Store → Refund → Store
claimed d r = record d { refunds = update_refund r.id claim_row d.refunds; asked = r.id ∷ d.asked }

unfoldable pub attempt : Store → ℕ → Reply → Store × Result RefundError (Option ℕ)
unfolding update_refund is_claimable sent
attempt d id reply = elim (find (has_id id) d.refunds) [
  | none ↦ (d, err not_found)
  | some r ↦ if is_claimable r then sent (claimed d r) r reply else (d, ok (some r.id))
]

abbrev pub new_refund : ℕ → ℕ → Split → Refund
new_refund id amount split = record {
  id = id;
  amount = amount;
  split = split;
  status = pending;
  provider_id = none;
  attempts = 0;
}

-- `create`, `id` being the new row's: `ok none` is the source's null.
unfoldable pub create : Store → ℕ → Split → ℤ → Reply → Store × Result RefundError (Option ℕ)
unfolding refundable attempt
create d id split amount reply =
    if leb_ℤ amount (pos 0)
    then (d, ok none)
    else if ltb_ℤ (refundable d) amount
    then (d, err (too_large (refundable d)))
    else attempt (set_refunds d (new_refund id (pos_part amount) split ∷ d.refunds)) id reply

-- The amount of a split refund.
unfoldable pub create_parts :
    Store → ℕ → RefundKind → Amounts → ℕ → Reply → Store × Result RefundError (Option ℕ)
unfolding create cash_of
create_parts d id kind a credit_back reply =
    create d id (parts kind a credit_back) (cash_of a credit_back) reply

abbrev settle_row : Bool → Refund → Refund
settle_row done r = record r { status = if done then processed else RefundStatus.failed }

abbrev sent_as : ℕ → Refund → Bool
sent_as ref r = elim r.provider_id [ none ↦ false | some x ↦ x == ref ]

-- `settle`: every row with the provider's id.
unfoldable pub settle : Store → ℕ → Bool → Store
settle d ref done = set_refunds d (settle_rows ref done d.refunds)
  where
    settle_rows : ℕ → Bool → List Refund → List Refund
    settle_rows ref done [] = []
    settle_rows ref done (r ∷ rs) =
        let rest = settle_rows ref done rs in
        if sent_as ref r then settle_row done r ∷ rest else r ∷ rest
