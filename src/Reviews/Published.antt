-- ===== src/Reviews/Published.antt =====
-- Which reviews are hidden.
use nivra.Prelude.{
  ℕ, ◌*◌, ◌≡◌, ◌⊎◌, refl, inl, inr, true, false, not, ◌||◌, ◌&&◌, none, some, is_some, List, [],
  ◌∷◌, any, arith, Bool-cases, Option-cases, ◌==◌,
}
use nivra.Prelude.Int.{pos, ◌+ℤ◌, ◌≤ℤ◌, leb_ℤ, le_of-leb_ℤ}
use nivra.Time.{Instant, day_ms}
use nivra.Machine.Rows.{Booking}
use nivra.Reviews.Blind.{
  Review, is_by, publish, publish_one, publish_due, review_of, is_reviewable, review_publish_days,
  write_review, written,
}

abbrev IsParty : Booking → ℕ → Type 0
IsParty b user = (user ≡ b.borrower) ⊎ (user ≡ b.lender)

-- The instant `now` is at least seven days after the rental was completed.
abbrev pub IsDue : Booking → Instant → Type 0
IsDue b now =
    (d : Instant) × (b.completed_at ≡ some d) × (d +ℤ pos (review_publish_days * day_ms) ≤ℤ now)

-- What a booking's reviews can be: none; one, hidden; one, published by a sweep that was due; or one
-- by each of the two people, both published.
pub data Fair (b : Booking) : List Review → Type 0 where
  none_yet : Fair b []
  hidden : (r : Review) → IsParty b r.author → r.published_at ≡ none → Fair b (r ∷ [])
  swept :
      (r : Review) (now : Instant)
      → IsParty b r.author
      → IsDue b now
      → is_some r.published_at ≡ true
      → Fair b (r ∷ [])
  both_sides :
      (r s : Review)
      → IsParty b r.author
      → IsParty b s.author
      → (r.author == s.author) ≡ false
      → is_some r.published_at ≡ true
      → is_some s.published_at ≡ true
      → Fair b (r ∷ s ∷ [])

-- A call of `write` that changes the table is by one of the two, who has not written one.
write_review-cases :
    (b : Booking) (rs : List Review) (user rating : ℕ) (now : Instant)
    → ((write_review b rs user rating now).0 ≡ rs)
      ⊎ (IsParty b user
          × (any (is_by user) rs ≡ false)
          × ((write_review b rs user rating now).0
              ≡ (written rs (review_of b user rating) user now).0))
unfolding write_review
write_review-cases b rs user rating now =
    elim (Bool-cases (not (b.borrower == user) && not (b.lender == user))) [
      | inl stranger ↦ inl (rw stranger refl)
      | inr known ↦ elim (Bool-cases (not (is_reviewable b now) || any (is_by user) rs)) [
        | inl shut ↦ inl (rw (known, shut) refl)
        | inr may ↦ inr (party_of known, fresh may, rw (known, may) refl)
      ]
    ]
  where
    party_of : (not (b.borrower == user) && not (b.lender == user)) ≡ false → IsParty b user
    party_of h = ground arith

    fresh : (not (is_reviewable b now) || any (is_by user) rs) ≡ false → any (is_by user) rs ≡ false
    fresh h = ground arith

publish_one-author : (now : Instant) (r : Review) → (publish_one now r).author ≡ r.author
publish_one-author now r = ground arith

publish_one-published :
    (now : Instant) (r : Review) → is_some (publish_one now r).published_at ≡ true
publish_one-published now r = ground arith

-- The second review publishes both.
second-Fair :
    (b : Booking) (r : Review) (user rating : ℕ) (now : Instant)
    → IsParty b r.author
    → IsParty b user
    → any (is_by user) (r ∷ []) ≡ false
    → Fair b (written (r ∷ []) (review_of b user rating) user now).0
unfolding written publish
second-Fair b r user rating now hr hu fresh =
    let other : (r.author == user) ≡ false = ground arith in
    let apart : (user == r.author) ≡ false = ground arith in
    rw (other) (
      both_sides (publish_one now (review_of b user rating)) (publish_one now r) hu
        (rw (publish_one-author now r) hr) (rw (publish_one-author now r) apart) refl
        (publish_one-published now r))

-- Two people have written: nobody else may.
third_refused :
    (b : Booking) (r s : Review) (user : ℕ)
    → IsParty b r.author
    → IsParty b s.author
    → (r.author == s.author) ≡ false
    → IsParty b user
    → any (is_by user) (r ∷ s ∷ []) ≡ true
third_refused b r s user hr hs apart hu = ground arith

written-Fair :
    (b : Booking) (rs : List Review) (user rating : ℕ) (now : Instant)
    → IsParty b user
    → any (is_by user) rs ≡ false
    → Fair b rs
    → Fair b (written rs (review_of b user rating) user now).0
unfolding written
written-Fair b [] user rating now hu fresh none_yet = hidden (review_of b user rating) hu refl
written-Fair b _ user rating now hu fresh (hidden r hr h) =
    second-Fair b r user rating now hr hu fresh
written-Fair b _ user rating now hu fresh (swept r t hr due h) =
    second-Fair b r user rating now hr hu fresh
written-Fair b _ user rating now hu fresh (both_sides r s hr hs apart hp hq) =
    absurd (ground (arith, third_refused b r s user hr hs apart hu))

write_review-Fair :
    (b : Booking) (rs : List Review) (user rating : ℕ) (now : Instant)
    → Fair b rs
    → Fair b (write_review b rs user rating now).0
write_review-Fair b rs user rating now h = elim (write_review-cases b rs user rating now) [
  | inl same ↦ rw same h
  | inr (party, fresh, e) ↦ rw e (written-Fair b rs user rating now party fresh h)
]

publish-Fair :
    (b : Booking) (rs : List Review) (now : Instant)
    → IsDue b now
    → Fair b rs
    → Fair b (publish now rs)
unfolding publish
publish-Fair b [] now due none_yet = none_yet
publish-Fair b _ now due (hidden r hr h) =
    swept (publish_one now r) now (rw (publish_one-author now r) hr) due
      (publish_one-published now r)
publish-Fair b _ now due (swept r t hr earlier h) =
    swept (publish_one now r) now (rw (publish_one-author now r) hr) due
      (publish_one-published now r)
publish-Fair b _ now due (both_sides r s hr hs apart hp hq) =
    both_sides (publish_one now r) (publish_one now s) (rw (publish_one-author now r) hr)
      (rw (publish_one-author now s) hs)
      (rw (publish_one-author now r, publish_one-author now s) apart) (publish_one-published now r)
      (publish_one-published now s)

-- The sweep does nothing before it is due.
publish_due-cases :
    (b : Booking) (rs : List Review) (now : Instant)
    → (publish_due b rs now ≡ rs) ⊎ (IsDue b now × (publish_due b rs now ≡ publish now rs))
unfolding publish_due
publish_due-cases b rs now = elim (Option-cases b.completed_at) [
  | inl open_still ↦ inl (rw (open_still, publish_due) refl)
  | inr (d, over) ↦ elim (Bool-cases (leb_ℤ (d +ℤ pos (review_publish_days * day_ms)) now)) [
    | inl due ↦ inr (
      (d, over, le_of-leb_ℤ (d +ℤ pos (review_publish_days * day_ms)) now due),
      rw (over, publish_due, due) refl,
    )
    | inr early ↦ inl (rw (over, publish_due, early) refl)
  ]
]

publish_due-Fair :
    (b : Booking) (rs : List Review) (now : Instant) → Fair b rs → Fair b (publish_due b rs now)
publish_due-Fair b rs now h = elim (publish_due-cases b rs now) [
  | inl same ↦ rw same h
  | inr (due, e) ↦ rw e (publish-Fair b rs now due h)
]

-- Reviews that are written, and sweeps, in any order, of a booking that was completed.
pub data ReviewReach (b : Booking) : List Review → Type 0 where
  start : ReviewReach b []
  writes :
      {rs : List Review} (user rating : ℕ) (now : Instant)
      → ReviewReach b rs
      → ReviewReach b (write_review b rs user rating now).0
  sweeps :
      {rs : List Review} (now : Instant) → ReviewReach b rs → ReviewReach b (publish_due b rs now)

-- Reviews are double-blind: whatever calls are made, a booking has at most one review by each of its
-- two people, and a review is public only if both have written one, or a sweep came at least seven
-- days after the rental was completed.
pub reach-Fair : {b : Booking} {rs : List Review} → ReviewReach b rs → Fair b rs
reach-Fair start = none_yet
reach-Fair {b = b} (writes {rs = rs} user rating now r) =
    write_review-Fair b rs user rating now (reach-Fair r)
reach-Fair {b = b} (sweeps {rs = rs} now r) = publish_due-Fair b rs now (reach-Fair r)
