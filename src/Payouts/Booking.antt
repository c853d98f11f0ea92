-- ===== src/Payouts/Booking.antt =====
-- `onConfirmed`, `onCancelled`, `release`, `sendKept` and `sendWaiting` of PayoutsService, on the
-- transfers of one booking and the ledger. The lender's account and what the provider answers are
-- arguments.
use nivra.Prelude.{
  replace_first, ℕ, ◌-◌, Bool, true, false, not, ◌&&◌, ◌||◌, none, some, List, [], ◌∷◌, map, find,
  Result, ok, err, ltb, ◌==◌, if◌then◌else◌, Option,
}
use nivra.Prelude.Int.{pos, pos_part}
use nivra.Ledger.{Ledger, Unbalanced, lender_share}
use nivra.Refunds.Rows.{PaymentStatus, captured, partially_refunded, refunded}
use nivra.Refunds.Service.{commission_bps}
use nivra.Payouts.Transfers.{
  Transfer, awaiting_account, Store, Reply, send, reverse, release, is_releasable, is_reversible,
}

-- The transfers are the latest first.
pub record Book : Type 0 where
  pub transfers : List Transfer
  pub booking : ℕ
  pub rent : ℕ
  pub payment : PaymentStatus
  pub ledger : Ledger

-- Whether the lender has an activated account with an id, the provider's answer to a transfer made
-- from a row, and whether it grants the reversal or the release of one.
pub record Bank : Type 0 where
  pub active : Bool
  pub reply : Transfer → Reply
  pub granted : Transfer → Bool

abbrev pub Run : Type 0
Run = Book × Result Unbalanced (Unit {0})

abbrev pub store_of : ℕ → Ledger → Transfer → Store
store_of booking g t = record { row = t; booking = booking; ledger = g }

abbrev pub waits_for_account : Transfer → Bool
waits_for_account t = elim t.status [ awaiting_account ↦ true | _ ↦ false ]

abbrev pub is_from_deposit : Transfer → Bool
is_from_deposit t = t.from_deposit

abbrev pub new_transfer : ℕ → Bool → Bool → Transfer
new_transfer amount held from_deposit = record {
  amount = amount;
  held = held;
  from_deposit = from_deposit;
  status = awaiting_account;
  provider_id = none;
  attempts = 0;
}

-- The row that was just created is sent.
unfoldable pub created : Book → Transfer → Result Unbalanced Store → Run
created b t (err e) = (record b { transfers = t ∷ b.transfers }, err e)
created b t (ok s) = (record b { transfers = s.row ∷ b.transfers; ledger = s.ledger }, ok tt)

unfoldable pub create_and_send : Book → Transfer → Bank → Run
unfolding created send
create_and_send b t bank =
    created b t (send (store_of b.booking b.ledger t) bank.active (bank.reply t))

-- The lender's share of a rent: the rent less its commission, which is never negative.
abbrev pub share : ℕ → ℕ
share rent = pos_part (lender_share (pos rent) commission_bps)

abbrev is_just_captured : PaymentStatus → Bool
is_just_captured captured = true
is_just_captured s = false

abbrev pub was_paid : PaymentStatus → Bool
was_paid captured = true
was_paid partially_refunded = true
was_paid refunded = true
was_paid s = false

unfoldable pub on_confirmed : Book → Bank → Run
unfolding create_and_send lender_share
on_confirmed b bank =
    if is_just_captured b.payment
    then create_and_send b (new_transfer (share b.rent) true false) bank
    else (b, ok tt)

-- The loop of `onCancelled`; a reversal that does not balance throws and ends it.
unfoldable pub reverse_rows :
    ℕ
    → (Transfer → Bool)
    → Ledger
    → List Transfer
    → List Transfer × Ledger × Result Unbalanced (Unit {0})
unfolding reverse
reverse_rows booking granted g [] = ([], g, ok tt)
reverse_rows booking granted g (t ∷ ts) =
    if is_reversible t
    then elim (reverse (store_of booking g t) (granted t)) [
      | err e ↦ (t ∷ ts, g, err e)
      | ok s ↦
          (let (rest, g', r) = reverse_rows booking granted s.ledger ts in (s.row ∷ rest, g', r))
    ]
    else let (rest, g', r) = reverse_rows booking granted g ts in (t ∷ rest, g', r)

-- What is left to pay once the held transfers are taken back.
unfoldable pub pay_share : Book → ℕ → Bank → Run
unfolding create_and_send lender_share
pay_share b kept bank =
    if ltb 0 kept && was_paid b.payment
    then create_and_send b (new_transfer (share kept) false false) bank
    else (b, ok tt)

abbrev pub then_pay : Book → ℕ → Bank → List Transfer × Ledger × Result Unbalanced (Unit {0}) → Run
unfolding pay_share
then_pay b kept bank (ts, g, err e) = (record b { transfers = ts; ledger = g }, err e)
then_pay b kept bank (ts, g, ok u) = pay_share (record b { transfers = ts; ledger = g }) kept bank

-- A refund is of at most the rent, so the rent that is kept is never negative.
unfoldable pub on_cancelled : Book → ℕ → Bank → Run
unfolding reverse_rows pay_share
on_cancelled b rent_refunded bank =
    then_pay b (b.rent - rent_refunded) bank
      (reverse_rows b.booking bank.granted b.ledger b.transfers)

abbrev released_row : Book → Bank → Transfer → Transfer
unfolding release
released_row b bank t =
    if is_releasable t then (release (store_of b.booking b.ledger t) (bank.granted t)).row else t

-- `release`; only a row's status or hold changes.
unfoldable pub release_all : Book → Bank → Book
unfolding release
release_all b bank = record b { transfers = map (released_row b bank) b.transfers }

unfoldable pub sent_again : Book → Result Unbalanced Store → Run
sent_again b (err e) = (b, err e)
sent_again b (ok s) = (
  record b { transfers = replace_first is_from_deposit s.row b.transfers; ledger = s.ledger },
  ok tt,
)

-- The rest of `sendKept`, once the transfer from the deposit was looked up.
unfoldable pub send_found : Book → ℕ → Bank → Option Transfer → Run
unfolding create_and_send sent_again send
send_found b amount bank none = create_and_send b (new_transfer amount false true) bank
send_found b amount bank (some kept) =
    if waits_for_account kept
    then sent_again b (send (store_of b.booking b.ledger kept) bank.active (bank.reply kept))
    else (b, ok tt)

unfoldable pub send_kept : Book → ℕ → Bank → Run
unfolding send_found
send_kept b amount bank =
    if amount == 0 || not (was_paid b.payment)
    then (b, ok tt)
    else send_found b amount bank (find is_from_deposit b.transfers)

-- The loop of `sendWaiting`.
unfoldable pub send_rows :
    ℕ → Bank → Ledger → List Transfer → List Transfer × Ledger × Result Unbalanced (Unit {0})
unfolding send
send_rows booking bank g [] = ([], g, ok tt)
send_rows booking bank g (t ∷ ts) =
    if waits_for_account t
    then elim (send (store_of booking g t) bank.active (bank.reply t)) [
      | err e ↦ (t ∷ ts, g, err e)
      | ok s ↦ (let (rest, g', r) = send_rows booking bank s.ledger ts in (s.row ∷ rest, g', r))
    ]
    else let (rest, g', r) = send_rows booking bank g ts in (t ∷ rest, g', r)

unfoldable pub send_waiting : Book → Bank → Run
unfolding send_rows
send_waiting b bank =
    let (ts, g, r) = send_rows b.booking bank b.ledger b.transfers in
    (record b { transfers = ts; ledger = g }, r)
