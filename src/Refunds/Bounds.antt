-- ===== src/Refunds/Bounds.antt =====
-- No refund takes what counts as refunded over the captured amount.
use nivra.Prelude.{
  ℕ, ◌+◌, ◌≤◌, ◌≡◌, refl, inl, inr, Bool, true, false, Bool-cases, some, List, [], ◌∷◌, any, find,
  ok, err, Result, arith, ◌==◌,
}
use nivra.Prelude.Int.{ℤ, pos, pos_part, ◌≤ℤ◌, ◌<ℤ◌, leb_ℤ, ltb_ℤ, -ℤ_parts}
use nivra.Ledger.{post, Unbalanced, Ledger}
use nivra.Refunds.Rows.{Refund, Store, cost, counted, has_id, update_refund, Split}
use nivra.Refunds.Service.{
  Reply, refuses, accepts, attempt, create, refundable, sent, accepted, claimed, claim_row,
  fail_row, accept_row, set_refunds, new_refund, is_claimable, lines_of, entry_type_of, recorded,
}

unfoldable pub IsUnique : List Refund → Type 0
IsUnique [] = Unit
IsUnique (r ∷ rs) = (any (has_id r.id) rs ≡ false) × IsUnique rs

-- Updating a row that is not there changes nothing.
update_refund-absent :
    (id : ℕ) (f : Refund → Refund) (rs : List Refund)
    → any (has_id id) rs ≡ false
    → update_refund id f rs ≡ rs
unfolding update_refund
update_refund-absent id f [] h = refl
update_refund-absent id f (r ∷ rs) h = ground (arith, update_refund-absent id f rs)

same_id_absent :
    (id other : ℕ) (rs : List Refund)
    → (id == other) ≡ true
    → any (has_id id) rs ≡ false
    → any (has_id other) rs ≡ false
same_id_absent id other rs e h =
    let same : id ≡ other = ground arith in
    let moved : any (has_id other) rs ≡ false = rw same at h in moved

-- Updating a row changes what counts by what that row counted before and counts after.
counted-update_refund :
    (id : ℕ) (f : Refund → Refund) (rs : List Refund) {r : Refund}
    → IsUnique rs
    → find (has_id id) rs ≡ some r
    → counted (update_refund id f rs) + cost r ≡ counted rs + cost (f r)
unfolding counted update_refund IsUnique
counted-update_refund id f [] unique h = absurd (ground arith)
counted-update_refund id f (q ∷ rs) {r = r} unique h = elim (Bool-cases (has_id id q)) [
  | inl here ↦
      (let found : q ≡ r = ground arith in
        let rest : update_refund id f rs ≡ rs =
          update_refund-absent id f rs (same_id_absent q.id id rs here unique.0) in
        rw (here, rest, ← found) (omega arith))
  | inr there ↦
      (let later : find (has_id id) rs ≡ some r = ground arith in
        rw there (omega (arith, counted-update_refund id f rs unique.1 later)))
]

-- The row of an id that is being updated keeps its id.
pub find-update_refund :
    (id : ℕ) (f : Refund → Refund) (rs : List Refund) (r : Refund)
    → find (has_id id) rs ≡ some r
    → has_id id (f r) ≡ true
    → find (has_id id) (update_refund id f rs) ≡ some (f r)
unfolding update_refund
find-update_refund id f [] r h k = absurd (ground arith)
find-update_refund id f (q ∷ rs) r h k = elim (Bool-cases (has_id id q)) [
  | inl here ↦ (let found : q ≡ r = ground arith in rw (here, found, k) refl)
  | inr there ↦
      (let later : find (has_id id) rs ≡ some r = ground arith in
        rw (there, there) (find-update_refund id f rs r later k))
]

any-update_refund :
    (id other : ℕ) (f : Refund → Refund) (rs : List Refund)
    → ((r : Refund) → (f r).id ≡ r.id)
    → any (has_id other) (update_refund id f rs) ≡ any (has_id other) rs
unfolding update_refund
any-update_refund id other f [] k = refl
any-update_refund id other f (q ∷ rs) k = ground (arith, k q, any-update_refund id other f rs k)

update_refund-IsUnique :
    (id : ℕ) (f : Refund → Refund) (rs : List Refund)
    → ((r : Refund) → (f r).id ≡ r.id)
    → IsUnique rs
    → IsUnique (update_refund id f rs)
unfolding update_refund IsUnique
update_refund-IsUnique id f [] k unique = tt
update_refund-IsUnique id f (q ∷ rs) k unique = elim (Bool-cases (has_id id q)) [
  | inl here ↦ rw (here) (
    rw (k q, any-update_refund id q.id f rs k) unique.0,
    update_refund-IsUnique id f rs k unique.1,
  )
  | inr there ↦
      rw (there)
        (rw (any-update_refund id q.id f rs k) unique.0, update_refund-IsUnique id f rs k unique.1)
]

-- A row that was found has the id that was looked for.
find-has_id :
    (id : ℕ) (rs : List Refund) (r : Refund) → find (has_id id) rs ≡ some r → has_id id r ≡ true
find-has_id id [] r h = absurd (ground arith)
find-has_id id (q ∷ rs) r h = elim (Bool-cases (has_id id q)) [
  | inl here ↦
      (let found : q ≡ r = ground arith in
        let moved : has_id id r ≡ true = rw found at here in moved)
  | inr there ↦ find-has_id id rs r (ground arith)
]

cost-le : (r : Refund) → cost r ≤ r.amount
cost-le r = ground arith

recorded-counted :
    (d : Store) (r : Refund) (ref : ℕ) (done : Bool) (g : Result Unbalanced Ledger) (r₀ : Refund)
    → IsUnique d.refunds
    → find (has_id r.id) d.refunds ≡ some r₀
    → counted (recorded d r ref done g).0.refunds + cost r₀ ≤ counted d.refunds + r₀.amount
unfolding recorded
recorded-counted d r ref done (err e) r₀ unique h = omega (arith, cost-le r₀)
recorded-counted d r ref done (ok g) r₀ unique h = omega (
  arith,
  counted-update_refund r.id (accept_row ref done) d.refunds unique h,
  cost-le (accept_row ref done r₀),
)

-- What counts after the provider was asked grows by at most the part of the amount that did not
-- count before.
sent-counted :
    (d : Store) (r : Refund) (reply : Reply) (r₀ : Refund)
    → IsUnique d.refunds
    → find (has_id r.id) d.refunds ≡ some r₀
    → counted (sent d r reply).0.refunds + cost r₀ ≤ counted d.refunds + r₀.amount
unfolding sent accepted
sent-counted d r refuses r₀ unique h =
    omega (arith, counted-update_refund r.id fail_row d.refunds unique h, cost-le r₀)
sent-counted d r (accepts ref done) r₀ unique h =
    recorded-counted d r ref done
      (post d.ledger (entry_type_of r.split) d.booking (some ref) (lines_of r d.rent)) r₀ unique h

claimed-counted :
    (d : Store) (r : Refund)
    → IsUnique d.refunds
    → find (has_id r.id) d.refunds ≡ some r
    → counted (update_refund r.id claim_row d.refunds) ≡ counted d.refunds
claimed-counted d r unique h =
    omega (arith, counted-update_refund r.id claim_row d.refunds unique h)

-- A send of a refund, a first try or a retry, keeps what counts within the captured amount, whatever
-- the provider answers, if the refund counts already or its amount is still refundable.
attempt-counted :
    (d : Store) (r : Refund) (reply : Reply)
    → IsUnique d.refunds
    → find (has_id r.id) d.refunds ≡ some r
    → counted d.refunds + r.amount ≤ d.amount + cost r
    → counted d.refunds ≤ d.amount
    → counted (attempt d r.id reply).0.refunds ≤ d.amount
unfolding attempt
attempt-counted d r reply unique h fits within =
    let same_id : (r.id == r.id) ≡ true = ground arith in
    let mine : find (has_id r.id) (claimed d r).refunds ≡ some (claim_row r) =
      find-update_refund r.id claim_row d.refunds r h same_id in
    let grows =
      sent-counted (claimed d r) r reply (claim_row r)
        (update_refund-IsUnique r.id claim_row d.refunds (λ q. refl) unique) mine in
    rw (h, attempt)
      (elim (Bool-cases (is_claimable r)) [
        | inl may ↦ rw may (omega (arith, grows, claimed-counted d r unique h))
        | inr other ↦ rw other within
      ])

pub self_found :
    (id amount : ℕ) (split : Split) (rs : List Refund)
    → find (has_id id) (new_refund id amount split ∷ rs) ≡ some (new_refund id amount split)
self_found id amount split rs = let same_id : (id == id) ≡ true = ground arith in rw same_id refl

-- The send of a new refund that fits.
start :
    (d : Store) (id : ℕ) (split : Split) (amount : ℤ) (reply : Reply)
    → IsUnique d.refunds
    → any (has_id id) d.refunds ≡ false
    → counted d.refunds ≤ d.amount
    → pos 0 <ℤ amount
    → amount ≤ℤ refundable d
    → counted
        (attempt
          (set_refunds d (new_refund id (pos_part amount) split ∷ d.refunds))
          id
          reply).0.refunds
      ≤ d.amount
unfolding refundable counted IsUnique
start d id split amount reply unique fresh within above fits =
    attempt-counted (set_refunds d (new_refund id (pos_part amount) split ∷ d.refunds))
      (new_refund id (pos_part amount) split) reply (fresh, unique)
      (self_found id (pos_part amount) split d.refunds)
      (ground (arith, -ℤ_parts (pos d.amount) (pos (counted d.refunds))))
      (ground (arith, -ℤ_parts (pos d.amount) (pos (counted d.refunds))))

-- Starting a refund keeps what counts as refunded within the captured amount, whatever the provider
-- answers, if it was within it and the refunds' ids differ, the new one's included.
pub create-counted :
    (d : Store) (id : ℕ) (split : Split) (amount : ℤ) (reply : Reply)
    → IsUnique d.refunds
    → any (has_id id) d.refunds ≡ false
    → counted d.refunds ≤ d.amount
    → counted (create d id split amount reply).0.refunds ≤ d.amount
unfolding create
create-counted d id split amount reply unique fresh within =
    elim (Bool-cases (leb_ℤ amount (pos 0))) [
      | inl nothing ↦ rw nothing within
      | inr some_left ↦ elim (Bool-cases (ltb_ℤ (refundable d) amount)) [
        | inl over ↦ rw (some_left, over) within
        | inr fits ↦
            rw (some_left, fits)
              (start d id split amount reply unique fresh within (ground arith) (ground arith))
      ]
    ]
