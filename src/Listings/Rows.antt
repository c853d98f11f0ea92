-- ===== src/Listings/Rows.antt =====
-- The rows of listings (apps/api/prisma/schema.prisma) and how ListingsService reads and writes one.
-- Titles, prices, addresses and photo files are left out; a coordinate, a text that is not empty and a
-- type of document are numbers.
use nivra.Prelude.{
  ℕ, Bool, true, false, not, ◌&&◌, Option, none, some, List, find, any, replace_first, Result, ok,
  err, ◌==◌, if◌then◌else◌,
}
use nivra.Time.{Instant}

pub data ListingStatus : Type 0 where
  draft pending live paused rejected removed deleted : ListingStatus

pub record Photo : Type 0 where
  pub id : ℕ
  pub sort_order : ℕ

pub record Block : Type 0 where
  pub starts_on : Instant
  pub ends_on : Instant

pub record Listing : Type 0 where
  pub id : ℕ
  pub lender : ℕ
  pub category : ℕ
  pub status : ListingStatus
  pub min_days : ℕ
  pub max_days : ℕ
  pub lat : Option ℕ
  pub lng : Option ℕ
  pub area_label : Option ℕ
  pub approved_at : Option Instant
  pub photos : List Photo
  pub blocks : List Block
  pub required_docs : List ℕ

pub data ListingError : Type 0 where
  not_found photo_not_found photo_limit bad_upload bad_photo incomplete category_inactive :
      ListingError
  bad_days lone_coordinate bad_order bad_range repeated_doc open_bookings : ListingError
  conflict : ListingStatus → ListingError

abbrev pub Listings : Type 0
Listings = List Listing

abbrev pub is_deleted : ListingStatus → Bool
is_deleted deleted = true
is_deleted s = false

abbrev pub is_draft : ListingStatus → Bool
is_draft draft = true
is_draft s = false

abbrev pub is_pending : ListingStatus → Bool
is_pending pending = true
is_pending s = false

abbrev pub is_live : ListingStatus → Bool
is_live live = true
is_live s = false

abbrev pub is_paused : ListingStatus → Bool
is_paused paused = true
is_paused s = false

-- What `deletePhoto` and `unpublish` count as published.
abbrev pub is_published : ListingStatus → Bool
is_published pending = true
is_published live = true
is_published paused = true
is_published s = false

-- `EDITABLE`.
abbrev pub is_editable : ListingStatus → Bool
is_editable removed = false
is_editable deleted = false
is_editable s = true

-- The lookup of `getMine`, and that of an admin.
abbrev pub is_mine : ℕ → ℕ → Listing → Bool
is_mine user id l = l.id == id && l.lender == user && not (is_deleted l.status)

abbrev pub has_id : ℕ → Listing → Bool
has_id id l = l.id == id

abbrev pub saved :
    (Listing → Bool)
    → Listings
    → Result ListingError Listing
    → Listings × Result ListingError (Unit {0})
saved p ls (err e) = (ls, err e)
saved p ls (ok l) = (replace_first p l ls, ok tt)

-- The row that was found is checked and written back.
unfoldable pub on_found :
    (Listing → Bool)
    → (Listing → Result ListingError Listing)
    → Listings
    → Listings × Result ListingError (Unit {0})
on_found p step ls = elim (find p ls) [ none ↦ (ls, err not_found) | some l ↦ saved p ls (step l) ]

-- `editable`, of a row that was found.
abbrev pub if_editable : Listing → Result ListingError Listing → Result ListingError Listing
if_editable l r = if is_editable l.status then r else err (conflict l.status)

abbrev pub is_set : Option Instant → Bool
is_set none = false
is_set (some d) = true

-- A lender with an approved listing is trusted.
abbrev pub is_approved_of : ℕ → Listing → Bool
is_approved_of user l = l.lender == user && is_set l.approved_at

unfoldable pub is_trusted : ℕ → Listings → Bool
is_trusted user ls = any (is_approved_of user) ls
