-- ===== src/Listings/Contents.antt =====
-- What a lender writes to a listing besides its fields: photos, blocked dates and required documents,
-- in ListingsService. Whether an upload can be claimed and read is an argument.
use nivra.Prelude.{
  ℕ, suc, max, Bool, not, ◌&&◌, ◌||◌, List, [], ◌∷◌, ◌++◌, map, any, all, length, Result, ok, err,
  leb, ◌==◌, if◌then◌else◌,
}
use nivra.Prelude.Int.{ltb_ℤ}
use nivra.Time.{Instant, add_days}
use nivra.Rentals.Handover.{distinct}
use nivra.Listings.Rows.{
  Photo, Block, Listing, ListingError, photo_not_found, photo_limit, bad_upload, bad_photo,
  incomplete, bad_order, bad_range, repeated_doc, is_published, if_editable,
}

abbrev pub max_photos : ℕ
max_photos = 8

abbrev pub horizon_days : ℕ
horizon_days = 365

-- One more than the largest order, or 0.
unfoldable pub next_order : List Photo → ℕ
next_order [] = 0
next_order (p ∷ ps) = max (suc p.sort_order) (next_order ps)

unfoldable pub add_photo_row : ℕ → Bool → Bool → Listing → Result ListingError Listing
unfolding next_order
add_photo_row id claimed readable l = if_editable l (
    if leb max_photos (length l.photos)
    then err photo_limit
    else if not claimed
    then err bad_upload
    else if not readable
    then err bad_photo
    else ok (record l {
      photos = l.photos ++ record { id = id; sort_order = next_order l.photos } ∷ [];
    }))

abbrev pub is_photo : ℕ → Photo → Bool
is_photo id p = p.id == id

-- `delete where id`, of one row.
unfoldable pub drop_photo : ℕ → List Photo → List Photo
drop_photo id [] = []
drop_photo id (p ∷ ps) = let rest = drop_photo id ps in if is_photo id p then ps else p ∷ rest

unfoldable pub delete_photo_row : ℕ → Listing → Result ListingError Listing
unfolding drop_photo
delete_photo_row id l = if_editable l (
    if not (any (is_photo id) l.photos)
    then err photo_not_found
    else if length l.photos == 1 && is_published l.status
    then err incomplete
    else ok (record l { photos = drop_photo id l.photos }))

abbrev pub photo_id : Photo → ℕ
photo_id p = p.id

abbrev pub contains : List ℕ → ℕ → Bool
contains xs x = any (λ y. y == x) xs

-- The index of an id, which `forEach` of the list writes as the photo's order.
unfoldable pub index_of : ℕ → List ℕ → ℕ
index_of x [] = 0
index_of x (y ∷ ys) = let rest = index_of x ys in if y == x then 0 else suc rest

abbrev pub ordered_by : List ℕ → Photo → Photo
unfolding index_of
ordered_by ids p = if contains ids p.id then record p { sort_order = index_of p.id ids } else p

unfoldable pub reorder_row : List ℕ → Listing → Result ListingError Listing
unfolding index_of distinct
reorder_row ids l = if_editable l (
    let known = map photo_id l.photos in
    if not (length ids == distinct known)
      || not (distinct ids == length ids)
      || not (all (contains known) ids)
    then err bad_order
    else ok (record l { photos = map (ordered_by ids) l.photos }))

-- The ranges of a request, checked and cut at today, in order.
abbrev pub with_block : Block → Result ListingError (List Block) → Result ListingError (List Block)
with_block b (err e) = err e
with_block b (ok bs) = ok (b ∷ bs)

unfoldable pub parse_ranges : Instant → List Block → Result ListingError (List Block)
unfolding add_days
parse_ranges today [] = ok []
parse_ranges today (r ∷ rs) =
    let rest = parse_ranges today rs in
    if ltb_ℤ r.ends_on r.starts_on
    then err bad_range
    else if ltb_ℤ r.ends_on today
    then err bad_range
    else if ltb_ℤ (add_days today horizon_days) r.ends_on
    then err bad_range
    else with_block
        (record {
          starts_on = if ltb_ℤ r.starts_on today then today else r.starts_on;
          ends_on = r.ends_on;
        })
        rest

abbrev pub with_blocks : Listing → Result ListingError (List Block) → Result ListingError Listing
with_blocks l (err e) = err e
with_blocks l (ok bs) = ok (record l { blocks = bs })

unfoldable pub set_blocks_row : Instant → List Block → Listing → Result ListingError Listing
unfolding parse_ranges
set_blocks_row today rs l = if_editable l (with_blocks l (parse_ranges today rs))

unfoldable pub set_docs_row : List ℕ → Listing → Result ListingError Listing
unfolding distinct
set_docs_row docs l = if_editable l (
    if not (distinct docs == length docs)
    then err repeated_doc
    else ok (record l { required_docs = docs }))
