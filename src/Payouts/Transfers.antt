-- ===== src/Payouts/Transfers.antt =====
-- `send`, `reverse`, `retry`, and the body of the loop of `release` of PayoutsService, on one transfer
-- row and the ledger. Only one call runs at a time here; what the provider answers is an argument.
use nivra.Prelude.{
  ℕ, ◌+◌, Bool, true, false, not, ◌&&◌, ◌||◌, Option, none, some, is_some, Result, ok, err,
  if◌then◌else◌,
}
use nivra.Prelude.Int.{pos}
use nivra.Ledger.{
  Ledger, transfer, transfer_reversal, Unbalanced, post, transfer_postings, reversal_postings,
}

pub data TransferStatus : Type 0 where
  awaiting_account on_hold released reversed failed : TransferStatus

pub record Transfer : Type 0 where
  pub amount : ℕ
  pub held : Bool
  pub from_deposit : Bool
  pub status : TransferStatus
  pub provider_id : Option ℕ
  pub attempts : ℕ

pub record Store : Type 0 where
  pub row : Transfer
  pub booking : ℕ
  pub ledger : Ledger

-- The provider's answer to a call that makes a transfer.
pub data Reply : Type 0 where
  refuses : Reply
  accepts : ℕ → Reply

abbrev pub set_status : TransferStatus → Store → Store
set_status s d = record d { row = record d.row { status = s } }

abbrev pub claim : Store → Store
claim d = record d { row = record d.row { attempts = d.row.attempts + 1 } }

abbrev is_waiting : TransferStatus → Bool
is_waiting awaiting_account = true
is_waiting failed = true
is_waiting s = false

-- The condition of the claiming update.
abbrev pub is_claimable : Transfer → Bool
is_claimable t = not (is_some t.provider_id) && is_waiting t.status

-- The transaction after the provider made the transfer; a posting that does not balance throws.
unfoldable pub made : Store → ℕ → Result Unbalanced Ledger → Result Unbalanced Store
made d ref (err e) = err e
made d ref (ok g) = ok record d {
  row = record d.row { provider_id = some ref; status = if d.row.held then on_hold else released };
  ledger = g;
}

unfoldable pub requested : Store → Reply → Result Unbalanced Store
unfolding made
requested d refuses = ok (set_status failed d)
requested d (accepts ref) =
    made d ref (post d.ledger transfer d.booking (some ref) (transfer_postings (pos d.row.amount)))

-- `send`, `active` being whether the lender has an activated account with an id.
unfoldable pub send : Store → Bool → Reply → Result Unbalanced Store
unfolding requested
send d active reply =
    if not active
    then ok (set_status awaiting_account d)
    else if not (is_claimable d.row)
    then ok d
    else requested (claim d) reply

unfoldable pub taken_back : Store → Result Unbalanced Ledger → Result Unbalanced Store
taken_back d (err e) = err e
taken_back d (ok g) = ok record d { row = record d.row { status = reversed }; ledger = g }

-- `reverse`, `granted` being whether the provider's reversal succeeds; the first argument is the
-- provider's id of the transfer.
unfoldable pub reverse_as : Option ℕ → Store → Bool → Result Unbalanced Store
unfolding taken_back
reverse_as none d granted = ok (set_status reversed d)
reverse_as (some ref) d false = ok d
reverse_as (some ref) d true =
    taken_back d
      (post d.ledger transfer_reversal d.booking (some ref) (reversal_postings (pos d.row.amount)))

unfoldable pub reverse : Store → Bool → Result Unbalanced Store
unfolding reverse_as
reverse d granted = reverse_as d.row.provider_id d granted

abbrev is_on_hold : TransferStatus → Bool
is_on_hold on_hold = true
is_on_hold s = false

-- One round of the loop of `release`, on a row that the query selects.
unfoldable pub release : Store → Bool → Store
release d granted =
    if not (is_on_hold d.row.status) || not (is_some d.row.provider_id)
    then record d { row = record d.row { held = false } }
    else if not granted
    then d
    else set_status released d

-- The rows that `release` and `onCancelled` select (rent that is held), and those that the admin's
-- retry and the sweep send.
abbrev pub is_releasable : Transfer → Bool
is_releasable t = not t.from_deposit && (t.held && (is_waiting t.status || is_on_hold t.status))

abbrev pub is_reversible : Transfer → Bool
is_reversible t = t.held && (is_waiting t.status || is_on_hold t.status)

abbrev pub is_sendable : Transfer → Bool
is_sendable t = is_waiting t.status

abbrev pub is_failed : TransferStatus → Bool
is_failed failed = true
is_failed s = false

unfoldable pub retry : Store → Bool → Reply → Result Unbalanced Store
unfolding send
retry d active reply =
    let again =
      if is_failed d.row.status then record d { row = record d.row { attempts = 0 } } else d in
    send again active reply
