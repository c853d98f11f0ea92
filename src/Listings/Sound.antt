-- ===== src/Listings/Sound.antt =====
-- What each change of one listing keeps.
use nivra.Prelude.{
  ℕ, suc, ◌<◌, ◌≤◌, ◌≡◌, ◌⊎◌, refl, inl, Bool, true, false, not, ◌&&◌, ◌||◌, List, [], ◌∷◌, map,
  any, all, length, length-append, length-map, Result, ok, err, ltb, leb, ◌==◌, if◌then◌else◌,
  arith,
}
use nivra.Time.{Instant}
use nivra.Rentals.Handover.{distinct}
use nivra.Listings.Rows.{
  ListingStatus, live, paused, rejected, Photo, Block, Listing, ListingError, is_published, is_set,
  is_editable,
}
use nivra.Listings.Lender.{Changes, is_given, after_edit, update_row, changes_category, or_default}
use nivra.Listings.Contents.{
  max_photos, add_photo_row, next_order, delete_photo_row, is_photo, drop_photo, photo_id, contains,
  ordered_by, reorder_row, parse_ranges, with_blocks, set_blocks_row, set_docs_row,
}

-- A published listing has a photo, there are at most eight photos, and no document is asked twice.
pub record Sound (l : Listing) : Type 0 where
  pub has_photo : is_published l.status ≡ true → 0 < length l.photos
  pub few_photos : length l.photos ≤ 8
  pub docs_differ : distinct l.required_docs ≡ length l.required_docs

-- Live, or hidden by the lender for a while.
abbrev pub is_shown : ListingStatus → Bool
is_shown live = true
is_shown paused = true
is_shown s = false

-- A change keeps the lender, an approval and the rest, and shows the listing only if it was shown, or
-- the lender is trusted, or the change approves it.
pub record Kept (trusted : Bool) (l l' : Listing) : Type 0 where
  pub same_lender : l'.lender ≡ l.lender
  pub keeps_approved : is_set l.approved_at ≡ true → is_set l'.approved_at ≡ true
  pub shows :
      is_shown l'.status ≡ true
      → (is_shown l.status ≡ true) ⊎ ((trusted ≡ true) ⊎ (is_set l'.approved_at ≡ true))
  pub sound : Sound l'

abbrev pub OkKept : Bool → Listing → Result ListingError Listing → Type 0
OkKept trusted l (err e) = Unit
OkKept trusted l (ok l') = Kept trusted l l'

pub guard-Kept :
    (b t : Bool) (l : Listing) (e : ListingError) (r : Result ListingError Listing)
    → (b ≡ false → OkKept t l r)
    → OkKept t l (if b then err e else r)
guard-Kept true t l e r k = tt
guard-Kept false t l e r k = k refl

pub check-Kept :
    (b t : Bool) (l : Listing) (e : ListingError) (r : Result ListingError Listing)
    → (b ≡ true → OkKept t l r)
    → OkKept t l (if b then r else err e)
check-Kept false t l e r k = tt
check-Kept true t l e r k = k refl

published_after : (s : ListingStatus) → is_published (after_edit s) ≡ is_published s
published_after rejected = refl
published_after s = refl

shown_after : (s : ListingStatus) → is_shown (after_edit s) ≡ is_shown s
shown_after rejected = refl
shown_after s = refl

-- A change of neither the status nor the lender nor the approval.
pub same-Kept :
    (t : Bool) (l l' : Listing)
    → l'.lender ≡ l.lender
    → l'.approved_at ≡ l.approved_at
    → l'.status ≡ l.status
    → Sound l'
    → Kept t l l'
same-Kept t l l' lender approved status sound = record {
  same_lender = lender;
  keeps_approved = λ h. rw approved h;
  shows = λ h. inl (rw status at h);
  sound = sound;
}

pub update_row-Kept :
    (t b : Bool) (c : Changes) (l : Listing) → Sound l → OkKept t l (update_row b c l)
unfolding update_row
update_row-Kept t b c l h = check-Kept (is_editable l.status) t l _ _ (λ editable.
    guard-Kept (changes_category c l && not b) t l _ _ (λ known.
      guard-Kept (ltb (or_default c.max_days l.max_days) (or_default c.min_days l.min_days)) t l _ _
        (λ days.
          guard-Kept
            (not (is_given c.lat) && is_given c.lng || is_given c.lat && not (is_given c.lng)) t l _
            _
            (λ both. record {
              same_lender = refl;
              keeps_approved = λ x. x;
              shows = λ x. inl (rw (shown_after l.status) at x);
              sound = record {
                has_photo = λ x. h.has_photo (rw (published_after l.status) at x);
                few_photos = h.few_photos;
                docs_differ = h.docs_differ;
              };
            }))))

pub add_photo_row-Kept :
    (t : Bool) (id : ℕ) (claimed readable : Bool) (l : Listing)
    → Sound l
    → OkKept t l (add_photo_row id claimed readable l)
unfolding add_photo_row
add_photo_row-Kept t id claimed readable l h =
    check-Kept (is_editable l.status) t l _ _ (λ editable.
      guard-Kept (leb max_photos (length l.photos)) t l _ _ (λ room.
        guard-Kept (not claimed) t l _ _ (λ mine. guard-Kept (not readable) t l _ _ (λ good.
          let new : List Photo = record { id = id; sort_order = next_order l.photos } ∷ [] in
          let longer = length-append l.photos new in
          same-Kept t l _ refl refl refl (record {
            has_photo = λ x. ground (arith, longer, h.has_photo x);
            few_photos = ground (arith, longer);
            docs_differ = h.docs_differ;
          })))))

length-drop_photo :
    (id : ℕ) (ps : List Photo)
    → any (is_photo id) ps ≡ true
    → suc (length (drop_photo id ps)) ≡ length ps
unfolding drop_photo
length-drop_photo id [] h = absurd (ground arith)
length-drop_photo id (p ∷ ps) h = ground (arith, length-drop_photo id ps)

pub delete_photo_row-Kept :
    (t : Bool) (id : ℕ) (l : Listing) → Sound l → OkKept t l (delete_photo_row id l)
unfolding delete_photo_row
delete_photo_row-Kept t id l h = check-Kept (is_editable l.status) t l _ _ (λ editable.
    guard-Kept (not (any (is_photo id) l.photos)) t l _ _ (λ known.
      guard-Kept (length l.photos == 1 && is_published l.status) t l _ _ (λ more.
        let one_less : suc (length (drop_photo id l.photos)) ≡ length l.photos =
          length-drop_photo id l.photos (ground arith) in
        same-Kept t l _ refl refl refl (record {
          has_photo = λ x. ground (arith, one_less, h.has_photo x);
          few_photos = ground (arith, one_less, h.few_photos);
          docs_differ = h.docs_differ;
        }))))

pub reorder_row-Kept :
    (t : Bool) (ids : List ℕ) (l : Listing) → Sound l → OkKept t l (reorder_row ids l)
unfolding reorder_row
reorder_row-Kept t ids l h =
    let known = map photo_id l.photos in
    check-Kept (is_editable l.status) t l _ _ (λ editable.
      guard-Kept
        (not (length ids == distinct known)
          || not (distinct ids == length ids)
          || not (all (contains known) ids))
        t l _ _
        (λ whole.
          let same = length-map (ordered_by ids) l.photos in
          same-Kept t l _ refl refl refl (record {
            has_photo = λ x. rw same (h.has_photo x);
            few_photos = rw same h.few_photos;
            docs_differ = h.docs_differ;
          })))

-- A change of the blocks or the documents.
with_blocks-Kept :
    (t : Bool) (l : Listing) (r : Result ListingError (List Block))
    → Sound l
    → OkKept t l (with_blocks l r)
with_blocks-Kept t l (err e) h = tt
with_blocks-Kept t l (ok bs) h =
    same-Kept t l _ refl refl refl
      (record { has_photo = h.has_photo; few_photos = h.few_photos; docs_differ = h.docs_differ })

pub set_blocks_row-Kept :
    (t : Bool) (today : Instant) (rs : List Block) (l : Listing)
    → Sound l
    → OkKept t l (set_blocks_row today rs l)
unfolding set_blocks_row
set_blocks_row-Kept t today rs l h =
    check-Kept (is_editable l.status) t l _ _
      (λ editable. with_blocks-Kept t l (parse_ranges today rs) h)

pub set_docs_row-Kept :
    (t : Bool) (docs : List ℕ) (l : Listing) → Sound l → OkKept t l (set_docs_row docs l)
unfolding set_docs_row
set_docs_row-Kept t docs l h = check-Kept (is_editable l.status) t l _ _ (λ editable.
    guard-Kept (not (distinct docs == length docs)) t l _ _ (λ once.
      same-Kept t l _ refl refl refl (record {
        has_photo = h.has_photo;
        few_photos = h.few_photos;
        docs_differ = ground arith;
      })))
