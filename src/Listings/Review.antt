-- ===== src/Listings/Review.antt =====
-- What an admin does in ListingsService, and what the public sees of a listing.
use nivra.Prelude.{ℕ, Bool, ◌&&◌, Option, some, find, Result, ok, err, ◌==◌, if◌then◌else◌}
use nivra.Time.{Instant}
use nivra.Listings.Rows.{
  live, rejected, removed, Listing, ListingError, category_inactive, conflict, Listings, is_pending,
  is_live, is_published, has_id, on_found,
}

unfoldable pub approve_row : Instant → Listing → Result ListingError Listing
approve_row now l =
    if is_pending l.status
    then ok (record l { status = live; approved_at = some now })
    else err (conflict l.status)

unfoldable pub reject_row : Listing → Result ListingError Listing
reject_row l =
    if is_pending l.status then ok (record l { status = rejected }) else err (conflict l.status)

unfoldable pub unpublish_row : Listing → Result ListingError Listing
unpublish_row l =
    if is_published l.status then ok (record l { status = removed }) else err (conflict l.status)

unfoldable pub change_category_row : ℕ → Bool → Listing → Result ListingError Listing
change_category_row category category_ok l =
    if category_ok then ok (record l { category = category }) else err category_inactive

pub data Ruling : Type 0 where
  approves : Instant → Ruling
  rejects unpublishes : Ruling
  moves : ℕ → Bool → Ruling

unfoldable pub rule_row : Ruling → Listing → Result ListingError Listing
unfolding approve_row reject_row unpublish_row change_category_row
rule_row (approves now) = approve_row now
rule_row rejects = reject_row
rule_row unpublishes = unpublish_row
rule_row (moves category category_ok) = change_category_row category category_ok

unfoldable pub rule : Listings → ℕ → Ruling → Listings × Result ListingError (Unit {0})
unfolding rule_row on_found
rule ls id r = on_found (has_id id) (rule_row r) ls

-- `publicGet`; `active` is whether the person is.
abbrev pub is_public : (ℕ → Bool) → ℕ → Listing → Bool
is_public active id l = l.id == id && is_live l.status && active l.lender

unfoldable pub public_get : Listings → (ℕ → Bool) → ℕ → Option Listing
public_get ls active id = find (is_public active id) ls
