-- ===== src/Listings/Reviewed.antt =====
-- Listings over any sequence of calls.
use nivra.Prelude.{
  ℕ, ◌≡◌, refl, sym, inl, inr, Bool, true, false, not, ◌&&◌, some, [], ◌∷◌, map, find, any, All,
  replace_first, find-meets, find-any, any-replace_first, any-replaced, any_of_replace_first,
  All-replace_first, find-All, Result, ok, err, ltb, ◌==◌, arith, Option-cases, Bool-cases,
}
use nivra.Rentals.Handover.{distinct}
use nivra.Listings.Rows.{
  Listing, ListingError, Listings, is_mine, has_id, saved, on_found, is_approved_of, is_trusted,
}
use nivra.Listings.Lender.{
  Changes, Edit, create, edit_row, edit, is_kept_of, removed_of, delete_all_for, or_default,
}
use nivra.Listings.Review.{Ruling, rule_row, rule}
use nivra.Listings.Sound.{Sound, is_shown, Kept, OkKept}
use nivra.Listings.Moves.{edit_row-Kept, rule_row-Kept, removed_row-Kept}

-- A listing of the person that is live or hidden by them for a while.
abbrev pub is_shown_of : ℕ → Listing → Bool
is_shown_of user l = l.lender == user && is_shown l.status

pub record Reviewed (ls : Listings) : Type 0 where
  pub all_sound : All Sound ls
  pub trusted : (user : ℕ) → any (is_shown_of user) ls ≡ true → is_trusted user ls ≡ true

-- The table with a listing that was found written back.
replaced-Reviewed :
    (t : Bool) (p : Listing → Bool) (ls : Listings) (l l' : Listing)
    → find p ls ≡ some l
    → (t ≡ true → is_trusted l.lender ls ≡ true)
    → Kept t l l'
    → Reviewed ls
    → Reviewed (replace_first p l' ls)
unfolding is_trusted
replaced-Reviewed t p ls l l' found earned k h = record {
  all_sound = All-replace_first p Sound l l' ls found (λ s. k.sound) h.all_sound;
  trusted = λ user shown. elim (any_of_replace_first p (is_shown_of user) l l' ls shown) [
    | inl before ↦ kept user (h.trusted user before)
    | inr after ↦
        (let here : (l.lender ≡ user) × (is_shown l'.status ≡ true) =
            ground (arith, k.same_lender) in
          elim (k.shows here.1) [
            | inl was ↦ kept user (
                h.trusted user
                  (find-any p (is_shown_of user) l l' ls found (ground (arith, here.0, was))))
            | inr (inl earned_it) ↦ kept user (rw (sym here.0) (earned earned_it))
            | inr (inr approved) ↦
                any-replaced p (is_approved_of user) l l' ls found
                  (ground (arith, k.same_lender, here.0, approved))
          ])
  ];
}
  where
    kept :
        (user : ℕ)
        → any (is_approved_of user) ls ≡ true
        → any (is_approved_of user) (replace_first p l' ls) ≡ true
    kept user h' =
        any-replace_first p (is_approved_of user) l l' ls found
          (λ a. ground (arith, k.same_lender, k.keeps_approved)) h'

saved-Reviewed :
    (t : Bool) (p : Listing → Bool) (ls : Listings) (l : Listing) (r : Result ListingError Listing)
    → find p ls ≡ some l
    → (t ≡ true → is_trusted l.lender ls ≡ true)
    → OkKept t l r
    → Reviewed ls
    → Reviewed (saved p ls r).0
saved-Reviewed t p ls l (err e) found earned k h = h
saved-Reviewed t p ls l (ok l') found earned k h = replaced-Reviewed t p ls l l' found earned k h

on_found-Reviewed :
    (t : Bool) (p : Listing → Bool) (step : Listing → Result ListingError Listing) (ls : Listings)
    → ((l : Listing) → p l ≡ true → t ≡ true → is_trusted l.lender ls ≡ true)
    → ((l : Listing) → Sound l → OkKept t l (step l))
    → Reviewed ls
    → Reviewed (on_found p step ls).0
unfolding on_found
on_found-Reviewed t p step ls earned keeps h = elim (Option-cases (find p ls)) [
  | inl missing ↦ rw (missing, on_found) h
  | inr (l, found) ↦
      rw (found, on_found)
        (saved-Reviewed t p ls l (step l) found (earned l (find-meets p ls found))
          (keeps l (find-All p Sound ls found h.all_sound)) h)
]

edit-Reviewed :
    (ls : Listings) (user id : ℕ) (e : Edit) → Reviewed ls → Reviewed (edit ls user id e).0
unfolding edit
edit-Reviewed ls user id e h =
    on_found-Reviewed (is_trusted user ls) (is_mine user id) (edit_row (is_trusted user ls) e) ls
      (λ l mine t. let same : l.lender ≡ user = ground arith in rw same t)
      (edit_row-Kept (is_trusted user ls) e) h

rule-Reviewed : (ls : Listings) (id : ℕ) (r : Ruling) → Reviewed ls → Reviewed (rule ls id r).0
unfolding rule
rule-Reviewed ls id r h =
    on_found-Reviewed false (has_id id) (rule_row r) ls (λ l here t. absurd (ground arith))
      (rule_row-Kept false r) h

create-Reviewed :
    (ls : Listings) (id user category : ℕ) (b : Bool) (c : Changes)
    → Reviewed ls
    → Reviewed (create ls id user category b c).0
unfolding create is_trusted distinct
create-Reviewed ls id user category b c h = elim (Bool-cases (not b)) [
  | inl bad ↦ rw bad h
  | inr good ↦ elim (Bool-cases (ltb (or_default c.max_days 30) (or_default c.min_days 1))) [
    | inl wrong ↦ rw (good, wrong) h
    | inr right ↦
        rw (good, right)
          (record {
            all_sound = (
              record {
                has_photo = λ x. absurd (ground arith);
                few_photos = omega arith;
                docs_differ = refl;
              },
              h.all_sound,
            );
            trusted = λ v shown. ground (arith, h.trusted v);
          })
  ]
]

removed-All : (user : ℕ) (ls : Listings) → All Sound ls → All Sound (map (removed_of user) ls)
removed-All user [] h = tt
removed-All user (l ∷ ls) h = elim (Bool-cases (is_kept_of user l)) [
  | inl his ↦ rw his ((removed_row-Kept false l h.0).sound, removed-All user ls h.1)
  | inr other ↦ rw other (h.0, removed-All user ls h.1)
]

removed-trusted :
    (user v : ℕ) (ls : Listings)
    → (any (is_approved_of v) (map (removed_of user) ls) ≡ any (is_approved_of v) ls)
      × (any (is_shown_of v) (map (removed_of user) ls) ≡ true → any (is_shown_of v) ls ≡ true)
removed-trusted user v [] = (refl, λ h. h)
removed-trusted user v (l ∷ ls) =
    let (approved, shown) = removed-trusted user v ls in (ground arith, λ h. ground (arith, shown))

delete_all_for-Reviewed :
    (ls : Listings) (user : ℕ) → Reviewed ls → Reviewed (delete_all_for ls user)
unfolding delete_all_for is_trusted
delete_all_for-Reviewed ls user h = record {
  all_sound = removed-All user ls h.all_sound;
  trusted = λ v shown.
      let (approved, before) = removed-trusted user v ls in
      rw approved (h.trusted v (before shown));
}

-- Any sequence of calls of lenders and admins, and of deletions of accounts.
pub data ListingReach : Listings → Type 0 where
  start : ListingReach []
  creates :
      {ls : Listings} (id user category : ℕ) (b : Bool) (c : Changes)
      → ListingReach ls
      → ListingReach (create ls id user category b c).0
  edits :
      {ls : Listings} (user id : ℕ) (e : Edit)
      → ListingReach ls
      → ListingReach (edit ls user id e).0
  rules : {ls : Listings} (id : ℕ) (r : Ruling) → ListingReach ls → ListingReach (rule ls id r).0
  closes : {ls : Listings} (user : ℕ) → ListingReach ls → ListingReach (delete_all_for ls user)

-- Whatever lenders and admins do, in any order: every listing that waits for review, is live or is
-- hidden by its lender has a photo, no listing has more than eight photos or asks for a document
-- twice, and only who has a listing that an admin approved has listings that are live or hidden.
pub reach-Reviewed : {ls : Listings} → ListingReach ls → Reviewed ls
unfolding is_trusted
reach-Reviewed start = record { all_sound = tt; trusted = λ user h. absurd (ground arith) }
reach-Reviewed (creates {ls = ls} id user category b c r) =
    create-Reviewed ls id user category b c (reach-Reviewed r)
reach-Reviewed (edits {ls = ls} user id e r) = edit-Reviewed ls user id e (reach-Reviewed r)
reach-Reviewed (rules {ls = ls} id x r) = rule-Reviewed ls id x (reach-Reviewed r)
reach-Reviewed (closes {ls = ls} user r) = delete_all_for-Reviewed ls user (reach-Reviewed r)
