-- ===== src/Listings/Lender.antt =====
-- What a lender does in ListingsService. Whether the category is active, an upload can be claimed and
-- read, and bookings are in progress are arguments; audit rows, files and search are left out.
use nivra.Listings.Contents.{
  add_photo_row, delete_photo_row, reorder_row, set_blocks_row, set_docs_row,
}
use nivra.Prelude.{
  ℕ, Bool, true, false, not, ◌&&◌, ◌||◌, Option, none, some, List, [], ◌∷◌, map, length, Result, ok,
  err, ltb, leb, ◌==◌, if◌then◌else◌,
}
use nivra.Time.{Instant}
use nivra.Listings.Rows.{
  ListingStatus, draft, pending, live, paused, rejected, deleted, Block, Listing, ListingError,
  incomplete, category_inactive, bad_days, lone_coordinate, open_bookings, conflict, Listings,
  is_deleted, is_draft, is_live, is_paused, is_mine, on_found, if_editable, is_trusted,
}

abbrev pub min_photos : ℕ
min_photos = 1

-- `??`
abbrev pub or_default : Option ℕ → ℕ → ℕ
or_default none x = x
or_default (some y) x = y

-- A field of the body is absent, null or a value: an absent one keeps what was there, and `some none`,
-- that is null, clears it.
abbrev pub or_keep : Option (Option ℕ) → Option ℕ → Option ℕ
or_keep none old = old
or_keep (some x) old = x

abbrev pub is_given {ℓ} : {A : Type ℓ} → Option A → Bool
is_given none = false
is_given (some x) = true

-- What the body of a request to create or to change a listing holds; null in a column that must not be
-- null is refused by the database and not modelled.
pub record Changes : Type 0 where
  pub category : Option ℕ
  pub min_days : Option ℕ
  pub max_days : Option ℕ
  pub lat : Option (Option ℕ)
  pub lng : Option (Option ℕ)
  pub area_label : Option (Option ℕ)

abbrev pub new_listing : ℕ → ℕ → ℕ → Changes → Listing
new_listing id user category c = record {
  id = id;
  lender = user;
  category = category;
  status = draft;
  min_days = or_default c.min_days 1;
  max_days = or_default c.max_days 30;
  lat = or_keep c.lat none;
  lng = or_keep c.lng none;
  area_label = or_keep c.area_label none;
  approved_at = none;
  photos = [];
  blocks = [];
  required_docs = [];
}

unfoldable pub create :
    Listings → ℕ → ℕ → ℕ → Bool → Changes → Listings × Result ListingError (Unit {0})
create ls id user category category_ok c =
    if not category_ok
    then (ls, err category_inactive)
    else if ltb (or_default c.max_days 30) (or_default c.min_days 1)
    then (ls, err bad_days)
    else (new_listing id user category c ∷ ls, ok tt)

-- `input.categoryId && input.categoryId !== current.categoryId`
abbrev pub changes_category : Changes → Listing → Bool
changes_category c l = elim c.category [ none ↦ false | some x ↦ not (x == l.category) ]

abbrev pub after_edit : ListingStatus → ListingStatus
after_edit rejected = draft
after_edit s = s

abbrev pub changed : Changes → Listing → Listing
changed c l = record l {
  category = or_default c.category l.category;
  min_days = or_default c.min_days l.min_days;
  max_days = or_default c.max_days l.max_days;
  lat = or_keep c.lat l.lat;
  lng = or_keep c.lng l.lng;
  area_label = or_keep c.area_label l.area_label;
  status = after_edit l.status;
}

unfoldable pub update_row : Bool → Changes → Listing → Result ListingError Listing
update_row category_ok c l = if_editable l (
    if changes_category c l && not category_ok
    then err category_inactive
    else if ltb (or_default c.max_days l.max_days) (or_default c.min_days l.min_days)
    then err bad_days
    else if not (is_given c.lat) && is_given c.lng || is_given c.lat && not (is_given c.lng)
    then err lone_coordinate
    else ok (changed c l))

-- Nothing that a published listing needs is missing.
abbrev pub is_complete : Listing → Bool
is_complete l =
    leb min_photos (length l.photos) && is_given l.lat && is_given l.lng && is_given l.area_label

unfoldable pub publish_row : Bool → Bool → Listing → Result ListingError Listing
publish_row trusted category_ok l =
    if not (is_draft l.status)
    then err (conflict l.status)
    else if not (is_complete l)
    then err incomplete
    else if not category_ok
    then err category_inactive
    else ok (record l { status = if trusted then live else pending })

unfoldable pub pause_row : Listing → Result ListingError Listing
pause_row l =
    if is_live l.status then ok (record l { status = paused }) else err (conflict l.status)

unfoldable pub unpause_row : Listing → Result ListingError Listing
unpause_row l =
    if is_paused l.status then ok (record l { status = live }) else err (conflict l.status)

-- `removeListing`.
abbrev pub removed_row : Listing → Listing
removed_row l = record l { status = deleted; photos = [] }

unfoldable pub delete_row : Bool → Listing → Result ListingError Listing
delete_row has_open l = if has_open then err open_bookings else ok (removed_row l)

-- The calls of a lender that read one listing of theirs and write it back.
pub data Edit : Type 0 where
  updates : Bool → Changes → Edit
  adds_photo : ℕ → Bool → Bool → Edit
  deletes_photo : ℕ → Edit
  reorders : List ℕ → Edit
  sets_blocks : Instant → List Block → Edit
  sets_docs : List ℕ → Edit
  publishes : Bool → Edit
  pauses unpauses : Edit
  deletes : Bool → Edit

unfoldable pub edit_row : Bool → Edit → Listing → Result ListingError Listing
unfolding update_row add_photo_row delete_photo_row reorder_row set_blocks_row set_docs_row
    publish_row pause_row unpause_row delete_row
edit_row trusted (updates category_ok c) = update_row category_ok c
edit_row trusted (adds_photo id claimed readable) = add_photo_row id claimed readable
edit_row trusted (deletes_photo id) = delete_photo_row id
edit_row trusted (reorders ids) = reorder_row ids
edit_row trusted (sets_blocks today rs) = set_blocks_row today rs
edit_row trusted (sets_docs docs) = set_docs_row docs
edit_row trusted (publishes category_ok) = publish_row trusted category_ok
edit_row trusted pauses = pause_row
edit_row trusted unpauses = unpause_row
edit_row trusted (deletes has_open) = delete_row has_open

unfoldable pub edit : Listings → ℕ → ℕ → Edit → Listings × Result ListingError (Unit {0})
unfolding edit_row on_found is_trusted
edit ls user id e = on_found (is_mine user id) (edit_row (is_trusted user ls) e) ls

-- `deleteAllFor`.
abbrev pub is_kept_of : ℕ → Listing → Bool
is_kept_of user l = l.lender == user && not (is_deleted l.status)

abbrev pub removed_of : ℕ → Listing → Listing
removed_of user l = if is_kept_of user l then removed_row l else l

unfoldable pub delete_all_for : Listings → ℕ → Listings
delete_all_for ls user = map (removed_of user) ls
