-- ===== src/Payouts/Lifecycle.antt =====
-- What a transfer has paid, over any sequence of calls.
use nivra.Prelude.{
  ℕ, ◌≡◌, refl, inl, inr, Bool, true, false, Option, none, some, is_some, Result, ok, err, arith,
  if◌then◌else◌, Bool-cases,
}
use nivra.Prelude.Int.{ℤ, pos, ◌-ℤ◌, int_laws}
use nivra.Ledger.{
  Ledger, lender_payable, transfer, transfer_reversal, post, transfer_postings, reversal_postings,
  account_balance, sum_account, Unbalanced,
}
use nivra.Ledger.Flow.{net, post-net}
use nivra.Payouts.Transfers.{
  TransferStatus, awaiting_account, on_hold, released, reversed, failed, Transfer, Store, Reply,
  refuses, accepts, send, requested, claim, is_failed, made, reverse, reverse_as, taken_back,
  release, retry, is_claimable, is_releasable, is_reversible, is_sendable,
}

-- The calls that the service makes on a row: what it selects, or guards, comes first.
pub data Step (d : Store) : Store → Type 0 where
  sends :
      (active : Bool) (reply : Reply) {d' : Store}
      → is_sendable d.row ≡ true
      → send d active reply ≡ ok d'
      → Step d d'
  retries :
      (active : Bool) (reply : Reply) {d' : Store}
      → is_sendable d.row ≡ true
      → retry d active reply ≡ ok d'
      → Step d d'
  reverses :
      (granted : Bool) {d' : Store}
      → is_reversible d.row ≡ true
      → reverse d granted ≡ ok d'
      → Step d d'
  releases : (granted : Bool) → is_releasable d.row ≡ true → Step d (release d granted)

pub data Reach (d : Store) : Store → Type 0 where
  start : Reach d d
  more : {d₁ d₂ : Store} → Reach d d₁ → Step d₁ d₂ → Reach d d₂

-- What the transfer has taken out for the lender.
pub paid_out : Transfer → ℕ
paid_out t = elim t.status [ on_hold ↦ t.amount | released ↦ t.amount | _ ↦ 0 ]

-- A row that waits was not sent, and one that is on hold or released was.
abbrev IsConsistent : Transfer → Type 0
IsConsistent t = elim t.status [
  | awaiting_account ↦ is_some t.provider_id ≡ false
  | failed ↦ is_some t.provider_id ≡ false
  | on_hold ↦ (is_some t.provider_id ≡ true)
  | released ↦ is_some t.provider_id ≡ true
  | reversed ↦ Unit
]

net-transfer : (x : ℕ) → net lender_payable (transfer_postings (pos x)) ≡ pos 0 -ℤ pos x
unfolding net transfer_postings sum_account
net-transfer x = omega int_laws

net-reversal : (x : ℕ) → net lender_payable (reversal_postings (pos x)) ≡ pos x
unfolding net reversal_postings sum_account
net-reversal x = omega int_laws

-- The row is consistent, and the ledger owes the lender `base` less what the row has paid out.
abbrev IsPaid : ℤ → Store → Type 0
IsPaid base d =
    IsConsistent d.row × (account_balance d.ledger lender_payable ≡ base -ℤ pos (paid_out d.row))

-- A call that throws leaves the row and the ledger as they were, so only its `ok` matters.
abbrev OkPaid : ℤ → Result Unbalanced Store → Type 0
OkPaid base (ok d) = IsPaid base d
OkPaid base (err e) = Unit

IsPaid-of_ok :
    (base : ℤ) (m : Result Unbalanced Store) (d' : Store)
    → OkPaid base m
    → m ≡ ok d'
    → IsPaid base d'
IsPaid-of_ok base m d' h e = let moved : OkPaid base (ok d') = rw e at h in moved

waiting_paid_nothing : (t : Transfer) → is_sendable t ≡ true → paid_out t ≡ 0
unfolding paid_out
waiting_paid_nothing t w = ground arith

made-OkPaid :
    (base : ℤ) (d : Store) (ref : ℕ) (posted : Result Unbalanced Ledger)
    → post d.ledger transfer d.booking (some ref) (transfer_postings (pos d.row.amount)) ≡ posted
    → is_sendable d.row ≡ true
    → IsPaid base d
    → OkPaid base (made d ref posted)
unfolding made paid_out
made-OkPaid base d ref (err e) p w h = tt
made-OkPaid base d ref (ok g) p w h =
    let flow =
      post-net d.ledger transfer d.booking (some ref) (transfer_postings (pos d.row.amount))
        lender_payable p in
    let owed : account_balance g lender_payable ≡ base -ℤ pos d.row.amount =
      rw (flow, net-transfer d.row.amount, h.1, waiting_paid_nothing d.row w) (omega int_laws) in
    elim (Bool-cases d.row.held) [
      | inl holding ↦ rw holding (refl, owed)
      | inr free ↦ rw free (refl, owed)
    ]

waiting-OkPaid :
    (base : ℤ) (d : Store) (s : TransferStatus)
    → is_sendable (record d.row { status = s }) ≡ true
    → is_sendable d.row ≡ true
    → IsPaid base d
    → IsPaid base (record d { row = record d.row { status = s } })
unfolding paid_out
waiting-OkPaid base d s w v h = ground arith

send-OkPaid :
    (base : ℤ) (d : Store) (active : Bool) (reply : Reply)
    → is_sendable d.row ≡ true
    → IsPaid base d
    → OkPaid base (send d active reply)
unfolding send requested paid_out
send-OkPaid base d false reply w h = waiting-OkPaid base d awaiting_account refl w h
send-OkPaid base d true refuses w h = elim (Bool-cases (is_claimable d.row)) [
  | inl may ↦ rw may (waiting-OkPaid base (claim d) failed refl w h)
  | inr other ↦ rw other h
]
send-OkPaid base d true (accepts ref) w h = elim (Bool-cases (is_claimable d.row)) [
  | inl may ↦ rw may (
      made-OkPaid base (claim d) ref
        (post d.ledger transfer d.booking (some ref) (transfer_postings (pos d.row.amount))) refl w
        h)
  | inr other ↦ rw other h
]

retry-OkPaid :
    (base : ℤ) (d : Store) (active : Bool) (reply : Reply)
    → is_sendable d.row ≡ true
    → IsPaid base d
    → OkPaid base (retry d active reply)
unfolding retry paid_out
retry-OkPaid base d active reply w h = elim (Bool-cases (is_failed d.row.status)) [
  | inl failing ↦
      rw failing
        (send-OkPaid base (record d { row = record d.row { attempts = 0 } }) active reply w h)
  | inr other ↦ rw other (send-OkPaid base d active reply w h)
]

taken_back-OkPaid :
    (base : ℤ) (d : Store) (ref : ℕ) (posted : Result Unbalanced Ledger)
    → post d.ledger transfer_reversal d.booking (some ref) (reversal_postings (pos d.row.amount))
      ≡ posted
    → paid_out d.row ≡ d.row.amount
    → IsPaid base d
    → OkPaid base (taken_back d posted)
unfolding taken_back paid_out
taken_back-OkPaid base d ref (err e) p w h = tt
taken_back-OkPaid base d ref (ok g) p w h =
    let flow =
      post-net d.ledger transfer_reversal d.booking (some ref)
        (reversal_postings (pos d.row.amount)) lender_payable p in
    (tt, rw (flow, net-reversal d.row.amount, h.1, w) (omega int_laws))

-- A row that can be reversed has paid its amount if the provider knows it, and nothing if not.
reversible_paid :
    (t : Transfer)
    → is_reversible t ≡ true
    → IsConsistent t
    → paid_out t ≡ (if is_some t.provider_id then t.amount else 0)
unfolding paid_out
reversible_paid t w h = ground arith

reverse_as-OkPaid :
    (base : ℤ) (known : Option ℕ) (d : Store) (granted : Bool)
    → paid_out d.row ≡ (if is_some known then d.row.amount else 0)
    → IsPaid base d
    → OkPaid base (reverse_as known d granted)
unfolding reverse_as paid_out
reverse_as-OkPaid base none d granted w h = (tt, rw (h.1, w) refl)
reverse_as-OkPaid base (some ref) d false w h = h
reverse_as-OkPaid base (some ref) d true w h =
    taken_back-OkPaid base d ref
      (post d.ledger transfer_reversal d.booking (some ref) (reversal_postings (pos d.row.amount)))
      refl w h

reverse-OkPaid :
    (base : ℤ) (d : Store) (granted : Bool)
    → is_reversible d.row ≡ true
    → IsPaid base d
    → OkPaid base (reverse d granted)
unfolding reverse
reverse-OkPaid base d granted w h =
    reverse_as-OkPaid base d.row.provider_id d granted (reversible_paid d.row w h.0) h

release-IsPaid :
    (base : ℤ) (d : Store) (granted : Bool)
    → is_releasable d.row ≡ true
    → IsPaid base d
    → IsPaid base (release d granted)
unfolding release paid_out
release-IsPaid base d granted w h = ground arith

Step-IsPaid : (base : ℤ) (d d' : Store) → IsPaid base d → Step d d' → IsPaid base d'
Step-IsPaid base d d' h (sends active reply w e) =
    IsPaid-of_ok base (send d active reply) d' (send-OkPaid base d active reply w h) e
Step-IsPaid base d d' h (retries active reply w e) =
    IsPaid-of_ok base (retry d active reply) d' (retry-OkPaid base d active reply w h) e
Step-IsPaid base d d' h (reverses granted w e) =
    IsPaid-of_ok base (reverse d granted) d' (reverse-OkPaid base d granted w h) e
Step-IsPaid base d _ h (releases granted w) = release-IsPaid base d granted w h

fresh-IsPaid :
    (d : Store)
    → d.row.provider_id ≡ none
    → d.row.status ≡ awaiting_account
    → IsPaid (account_balance d.ledger lender_payable) d
unfolding paid_out
fresh-IsPaid d fresh waiting = (ground arith, rw waiting (omega int_laws))

Reach-IsPaid : (base : ℤ) (d x : Store) → IsPaid base d → Reach d x → IsPaid base x
Reach-IsPaid base d _ h start = h
Reach-IsPaid base d x h (more {d₁ = y} r s) = Step-IsPaid base y x (Reach-IsPaid base d y h r) s

-- After any sequence of sends, retries, releases and reversals of a transfer, whatever the provider
-- answers and however often they are called, what the ledger owes the lender is what it owed before
-- less the amount once if the transfer is on hold or released, and not less if it is in any other
-- status; so a transfer is never paid twice and a reversal takes back just what was paid.
pub reach-paid_out :
    (d d' : Store)
    → d.row.provider_id ≡ none
    → d.row.status ≡ awaiting_account
    → Reach d d'
    → account_balance d'.ledger lender_payable
      ≡ account_balance d.ledger lender_payable -ℤ pos (paid_out d'.row)
reach-paid_out d d' fresh waiting r =
    (Reach-IsPaid (account_balance d.ledger lender_payable) d d' (fresh-IsPaid d fresh waiting) r).1
