-- ===== src/Listings/Moves.antt =====
-- What each change of a listing's status keeps, and so every change of a lender or an admin.
use nivra.Prelude.{◌≡◌, refl, inl, inr, Bool, true, false, not, arith}
use nivra.Time.{Instant}
use nivra.Listings.Rows.{
  ListingStatus, pending, live, paused, rejected, removed, Listing, is_draft, is_pending, is_live,
  is_paused, is_published,
}
use nivra.Listings.Lender.{
  Edit, updates, adds_photo, deletes_photo, reorders, sets_blocks, sets_docs, publishes, pauses,
  unpauses, deletes, is_complete, publish_row, pause_row, unpause_row, removed_row, delete_row,
  edit_row,
}
use nivra.Listings.Review.{
  Ruling, approves, rejects, unpublishes, moves, approve_row, reject_row, unpublish_row,
  change_category_row, rule_row,
}
use nivra.Listings.Sound.{
  Sound, is_shown, Kept, OkKept, guard-Kept, check-Kept, same-Kept, update_row-Kept,
  add_photo_row-Kept, delete_photo_row-Kept, reorder_row-Kept, set_blocks_row-Kept,
  set_docs_row-Kept,
}

pending_published : (s : ListingStatus) → is_pending s ≡ true → is_published s ≡ true
pending_published pending h = refl
pending_published s h = cc

live_published : (s : ListingStatus) → is_live s ≡ true → is_published s ≡ true
live_published live h = refl
live_published s h = cc

live_shown : (s : ListingStatus) → is_live s ≡ true → is_shown s ≡ true
live_shown live h = refl
live_shown s h = cc

paused_published : (s : ListingStatus) → is_paused s ≡ true → is_published s ≡ true
paused_published paused h = refl
paused_published s h = cc

paused_shown : (s : ListingStatus) → is_paused s ≡ true → is_shown s ≡ true
paused_shown paused h = refl
paused_shown s h = cc

-- A listing that becomes hidden, or whose status does not matter.
hidden-Kept :
    (t : Bool) (l : Listing) (s : ListingStatus)
    → is_shown s ≡ false
    → is_published s ≡ false
    → Sound l
    → Kept t l (record l { status = s })
hidden-Kept t l s hidden unpublished h = record {
  same_lender = refl;
  keeps_approved = λ x. x;
  shows = λ x. absurd (ground arith);
  sound = record {
    has_photo = λ x. absurd (ground arith);
    few_photos = h.few_photos;
    docs_differ = h.docs_differ;
  };
}

publish_row-Kept : (t b : Bool) (l : Listing) → Sound l → OkKept t l (publish_row t b l)
unfolding publish_row
publish_row-Kept true b l h = guard-Kept (not (is_draft l.status)) true l _ _ (λ was_draft.
    guard-Kept (not (is_complete l)) true l _ _ (λ whole. guard-Kept (not b) true l _ _ (λ known.
      record {
        same_lender = refl;
        keeps_approved = λ x. x;
        shows = λ x. inr (inl refl);
        sound = record {
          has_photo = λ x. ground arith;
          few_photos = h.few_photos;
          docs_differ = h.docs_differ;
        };
      })))
publish_row-Kept false b l h = guard-Kept (not (is_draft l.status)) false l _ _ (λ was_draft.
    guard-Kept (not (is_complete l)) false l _ _ (λ whole. guard-Kept (not b) false l _ _ (λ known.
      record {
        same_lender = refl;
        keeps_approved = λ x. x;
        shows = λ x. absurd (ground arith);
        sound = record {
          has_photo = λ x. ground arith;
          few_photos = h.few_photos;
          docs_differ = h.docs_differ;
        };
      })))

-- Between live and hidden by the lender.
shown-Kept :
    (t : Bool) (l : Listing) (s : ListingStatus)
    → is_shown l.status ≡ true
    → is_published l.status ≡ true
    → Sound l
    → Kept t l (record l { status = s })
shown-Kept t l s was public h = record {
  same_lender = refl;
  keeps_approved = λ x. x;
  shows = λ x. inl was;
  sound = record {
    has_photo = λ x. h.has_photo public;
    few_photos = h.few_photos;
    docs_differ = h.docs_differ;
  };
}

pause_row-Kept : (t : Bool) (l : Listing) → Sound l → OkKept t l (pause_row l)
unfolding pause_row
pause_row-Kept t l h =
    check-Kept (is_live l.status) t l _ _
      (λ was. shown-Kept t l paused (live_shown l.status was) (live_published l.status was) h)

unpause_row-Kept : (t : Bool) (l : Listing) → Sound l → OkKept t l (unpause_row l)
unfolding unpause_row
unpause_row-Kept t l h =
    check-Kept (is_paused l.status) t l _ _
      (λ was. shown-Kept t l live (paused_shown l.status was) (paused_published l.status was) h)

pub removed_row-Kept : (t : Bool) (l : Listing) → Sound l → Kept t l (removed_row l)
removed_row-Kept t l h = record {
  same_lender = refl;
  keeps_approved = λ x. x;
  shows = λ x. absurd (ground arith);
  sound = record {
    has_photo = λ x. absurd (ground arith);
    few_photos = omega arith;
    docs_differ = h.docs_differ;
  };
}

delete_row-Kept : (t b : Bool) (l : Listing) → Sound l → OkKept t l (delete_row b l)
unfolding delete_row
delete_row-Kept t b l h = guard-Kept b t l _ _ (λ free. removed_row-Kept t l h)

pub edit_row-Kept : (t : Bool) (e : Edit) (l : Listing) → Sound l → OkKept t l (edit_row t e l)
unfolding edit_row
edit_row-Kept t (updates b c) l h = update_row-Kept t b c l h
edit_row-Kept t (adds_photo id claimed readable) l h = add_photo_row-Kept t id claimed readable l h
edit_row-Kept t (deletes_photo id) l h = delete_photo_row-Kept t id l h
edit_row-Kept t (reorders ids) l h = reorder_row-Kept t ids l h
edit_row-Kept t (sets_blocks today rs) l h = set_blocks_row-Kept t today rs l h
edit_row-Kept t (sets_docs docs) l h = set_docs_row-Kept t docs l h
edit_row-Kept t (publishes b) l h = publish_row-Kept t b l h
edit_row-Kept t pauses l h = pause_row-Kept t l h
edit_row-Kept t unpauses l h = unpause_row-Kept t l h
edit_row-Kept t (deletes b) l h = delete_row-Kept t b l h

approve_row-Kept :
    (t : Bool) (now : Instant) (l : Listing) → Sound l → OkKept t l (approve_row now l)
unfolding approve_row
approve_row-Kept t now l h = check-Kept (is_pending l.status) t l _ _ (λ was. record {
  same_lender = refl;
  keeps_approved = λ x. refl;
  shows = λ x. inr (inr refl);
  sound = record {
    has_photo = λ x. h.has_photo (pending_published l.status was);
    few_photos = h.few_photos;
    docs_differ = h.docs_differ;
  };
})

pub rule_row-Kept : (t : Bool) (r : Ruling) (l : Listing) → Sound l → OkKept t l (rule_row r l)
unfolding rule_row reject_row unpublish_row change_category_row
rule_row-Kept t (approves now) l h = approve_row-Kept t now l h
rule_row-Kept t rejects l h =
    check-Kept (is_pending l.status) t l _ _ (λ was. hidden-Kept t l rejected refl refl h)
rule_row-Kept t unpublishes l h =
    check-Kept (is_published l.status) t l _ _ (λ was. hidden-Kept t l removed refl refl h)
rule_row-Kept t (moves category b) l h = check-Kept b t l _ _ (λ known.
    same-Kept t l _ refl refl refl
      (record { has_photo = h.has_photo; few_photos = h.few_photos; docs_differ = h.docs_differ }))
