-- ===== src/Listings/Tests.antt =====
-- A first listing that is written, published, approved and shown.
use nivra.Prelude.{◌≡◌, refl, true, none, some, [], ◌∷◌, ok, err, map}
use nivra.Prelude.Int.{pos}
use nivra.Listings.Rows.{live, Block, Listing, Listings, incomplete, on_found, is_trusted}
use nivra.Listings.Lender.{
  Changes, adds_photo, publishes, create, edit, edit_row, publish_row, update_row,
}
use nivra.Listings.Contents.{add_photo_row, next_order}
use nivra.Listings.Review.{approves, rule, rule_row, approve_row}
use nivra.Listings.Reviewed.{Reviewed, start, creates, edits, rules, reach-Reviewed}

abbrev tent : Changes
tent = record {
  category = none;
  min_days = none;
  max_days = some 10;
  lat = some (some 18);
  lng = some (some 73);
  area_label = some (some 5);
}

abbrev written : Listings
written = (edit (create [] 7 1 2 true tent).0 1 7 (adds_photo 30 true true)).0

abbrev shown : Listings
shown = (rule (edit written 1 7 (publishes true)).0 7 (approves (pos 9))).0

reach-Reviewed_example : Reviewed shown
reach-Reviewed_example = reach-Reviewed (
    rules 7 (approves (pos 9)) (
      edits 1 7 (publishes true)
        (edits 1 7 (adds_photo 30 true true) (creates 7 1 2 true tent start))))

is_shown : map (λ (l : Listing). l.status) shown ≡ live ∷ []
unfolding edit rule create on_found edit_row add_photo_row publish_row rule_row approve_row
    is_trusted next_order
is_shown = refl

no_photo : (edit (create [] 7 1 2 true tent).0 1 7 (publishes true)).1 ≡ err incomplete
unfolding edit create on_found edit_row publish_row is_trusted
no_photo = refl

abbrev two_photos : Listing
two_photos = record {
  id = 7;
  lender = 1;
  category = 2;
  status = live;
  min_days = 1;
  max_days = 10;
  lat = some 18;
  lng = some 73;
  area_label = some 5;
  approved_at = none;
  photos = record { id = 30; sort_order = 0 } ∷ record { id = 31; sort_order = 1 } ∷ [];
  blocks = [];
  required_docs = [];
}

-- The position and the area of a live listing, cleared.
abbrev nulls : Changes
nulls = record {
  category = none;
  min_days = none;
  max_days = none;
  lat = some none;
  lng = some none;
  area_label = some none;
}

live_without_position :
    update_row true nulls two_photos
    ≡ ok (record two_photos { lat = none; lng = none; area_label = none })
unfolding update_row
live_without_position = refl

abbrev swapped : Listing
swapped = record two_photos {
  photos = record { id = 30; sort_order = 1 } ∷ record { id = 31; sort_order = 0 } ∷ [];
}

abbrev cut : Block
cut = record { starts_on = pos 86400000; ends_on = pos 259200000 }
