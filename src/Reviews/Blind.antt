-- ===== src/Reviews/Blind.antt =====
-- `write` and `publishDue` of ReviewsService, on the reviews of one booking and the averages that they
-- count towards. Comments are left out; a rating is a whole number of stars.
use nivra.Prelude.{
  ℕ, ◌*◌, Bool, false, not, ◌&&◌, ◌||◌, Option, none, some, List, ◌∷◌, map, any, Result, ok, err,
  ◌==◌, if◌then◌else◌,
}
use nivra.Prelude.Int.{pos, ◌+ℤ◌, leb_ℤ}
use nivra.Time.{Instant, day_ms}
use nivra.Bookings.Status.{completed, is}
use nivra.Machine.Rows.{Booking}

pub record Review : Type 0 where
  pub author : ℕ
  pub subject : ℕ
  pub by_borrower : Bool
  pub rating : ℕ
  pub published_at : Option Instant

pub data ReviewError : Type 0 where
  not_found not_allowed : ReviewError

abbrev pub review_window_days : ℕ
review_window_days = 14

abbrev pub review_publish_days : ℕ
review_publish_days = 7

abbrev pub is_by : ℕ → Review → Bool
is_by user r = r.author == user

abbrev pub is_by_other : ℕ → Review → Bool
is_by_other user r = not (r.author == user)

-- `publishedAt: null`.
abbrev pub publish_one : Instant → Review → Review
publish_one now r = elim r.published_at [ none ↦ record r { published_at = some now } | some d ↦ r ]

-- The row update of `publish`, on all of a booking's reviews: both callers name all that are hidden.
unfoldable pub publish : Instant → List Review → List Review
publish now rs = map (publish_one now) rs

abbrev pub review_of : Booking → ℕ → ℕ → Review
review_of b user rating = record {
  author = user;
  subject = if b.borrower == user then b.lender else b.borrower;
  by_borrower = b.borrower == user;
  rating = rating;
  published_at = none;
}

-- Before the time to review ends.
unfoldable pub is_reviewable : Booking → Instant → Bool
is_reviewable b now = elim b.completed_at [
  | none ↦ false
  | some d ↦ is b.status completed && not (leb_ℤ (d +ℤ pos (review_window_days * day_ms)) now)
]

abbrev pub Run : Type 0
Run = List Review × Result ReviewError (Unit {0})

-- Both have written one: both are published.
unfoldable pub written : List Review → Review → ℕ → Instant → Run
unfolding publish
written rs mine user now =
    if any (is_by_other user) rs then (publish now (mine ∷ rs), ok tt) else (mine ∷ rs, ok tt)

unfoldable pub write_review : Booking → List Review → ℕ → ℕ → Instant → Run
unfolding is_reviewable written
write_review b rs user rating now =
    if not (b.borrower == user) && not (b.lender == user)
    then (rs, err not_found)
    else if not (is_reviewable b now) || any (is_by user) rs
    then (rs, err not_allowed)
    else written rs (review_of b user rating) user now

-- `publishDue`, of one booking's reviews.
unfoldable pub publish_due : Booking → List Review → Instant → List Review
unfolding publish
publish_due b rs now = elim b.completed_at [
  | none ↦ rs
  | some d ↦ if leb_ℤ (d +ℤ pos (review_publish_days * day_ms)) now then publish now rs else rs
]
