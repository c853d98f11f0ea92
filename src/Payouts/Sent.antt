-- ===== src/Payouts/Sent.antt =====
-- Transfers of a booking that the provider makes, releases and takes back at once.
use nivra.Prelude.{
  ℕ, ◌-◌, ◌≤◌, ◌<◌, ◌≡◌, refl, Bool, true, false, some, none, List, ◌∷◌, ok, arith, Option, find,
  ◌==◌,
}
use nivra.Prelude.Int.{pos, ◌-ℤ◌, ◌+ℤ◌, int_laws}
use nivra.Ledger.{
  Ledger, Line, EntryType, Txn, is_balanced, post, transfer, transfer_postings, deposit_held,
  lender_payable, txn_of, sum_account, lender_share, commission_on, sum_from,
}
use nivra.Ledger.Flow.{net}
use nivra.Rounding.{share_of-pos, share_ℕ, share_ℕ-le}
use nivra.Refunds.Service.{commission_bps}
use nivra.Payouts.Transfers.{Transfer, accepts, released, on_hold, send, requested, made}
use nivra.Payouts.Booking.{
  Book, Bank, create_and_send, created, new_transfer, share, send_kept, send_found, was_paid,
  is_from_deposit,
}

-- A posting of a balanced transaction is the next one of the ledger.
pub post-next :
    (g : Ledger) (kind : EntryType) (b : ℕ) (ref : Option ℕ) (l : Line) (ls : List Line)
    → is_balanced (l ∷ ls) ≡ true
    → post g kind b ref (l ∷ ls) ≡ ok (txn_of kind b ref (l ∷ ls) ∷ g)
unfolding post
post-next g kind b ref l ls h = rw h refl

pub transfer_postings-balanced : (x : ℕ) → is_balanced (transfer_postings (pos x)) ≡ true
unfolding is_balanced sum_from transfer_postings ◌+ℤ◌
transfer_postings-balanced x = ground arith

sub_pos : (m n : ℕ) → n ≤ m → pos m -ℤ pos n ≡ pos (m - n)
sub_pos m n h = omega int_laws

pub share-eq : (rent : ℕ) → pos (share rent) ≡ lender_share (pos rent) commission_bps
unfolding lender_share commission_on
share-eq rent =
    rw
      (
        share_of-pos rent commission_bps,
        sub_pos rent (share_ℕ rent commission_bps) (share_ℕ-le rent commission_bps (omega arith)),
      )
      refl

pub share-zero : share 0 ≡ 0
unfolding lender_share commission_on ◌-ℤ◌ share_ℕ
share-zero = rw (share_of-pos 0 commission_bps) refl

-- The transfer of a booking's ledger, as it is posted.
abbrev pub transfer_txn : ℕ → ℕ → ℕ → Txn
transfer_txn booking ref amount =
    txn_of transfer booking (some ref) (transfer_postings (pos amount))

-- The booking after a new transfer went out.
abbrev pub sent_book : Book → ℕ → ℕ → Bool → Book
sent_book b amount ref from_deposit = record b {
  transfers =
      record (new_transfer amount false from_deposit) {
        status = released;
        provider_id = some ref;
        attempts = 1;
      }
      ∷ b.transfers;
  ledger = transfer_txn b.booking ref amount ∷ b.ledger;
}

-- A new transfer that is not held goes out at once.
pub create_and_send-released :
    (b : Book) (amount ref : ℕ) (from_deposit : Bool) (bank : Bank)
    → bank.active ≡ true
    → bank.reply (new_transfer amount false from_deposit) ≡ accepts ref
    → create_and_send b (new_transfer amount false from_deposit) bank
      ≡ (sent_book b amount ref from_deposit, ok tt)
unfolding create_and_send created send requested made transfer_postings
create_and_send-released b amount ref from_deposit bank active reply =
    let posted =
      post-next b.ledger transfer b.booking (some ref) _ _ (transfer_postings-balanced amount) in
    rw (active, reply) (rw posted refl)

-- The first payment of a kept deposit.
pub send_kept-released :
    (b : Book) (kept ref : ℕ) (bank : Bank)
    → 0 < kept
    → was_paid b.payment ≡ true
    → find is_from_deposit b.transfers ≡ none
    → bank.active ≡ true
    → bank.reply (new_transfer kept false true) ≡ accepts ref
    → send_kept b kept bank ≡ (sent_book b kept ref true, ok tt)
unfolding send_kept send_found
send_kept-released b kept ref bank above paid fresh active reply =
    let positive : (kept == 0) ≡ false = ground arith in
    rw (positive, paid, fresh) (create_and_send-released b kept ref true bank active reply)

-- A rent transfer that the provider made and holds.
abbrev pub held_rent : ℕ → ℕ → ℕ → Transfer
held_rent amount ref attempts = record {
  amount = amount;
  held = true;
  from_deposit = false;
  status = on_hold;
  provider_id = some ref;
  attempts = attempts;
}

-- What a transfer adds to the accounts.
pub net-send :
    (x : ℕ)
    → (net lender_payable (transfer_postings (pos x)) ≡ pos 0 -ℤ pos x)
      × (net deposit_held (transfer_postings (pos x)) ≡ pos 0)
unfolding net transfer_postings sum_account
net-send x = (omega int_laws, omega int_laws)
