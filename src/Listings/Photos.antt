-- ===== src/Listings/Photos.antt =====
-- The order of a listing's photos, and its blocked dates.
use nivra.Prelude.{
  ℕ, suc, ◌≤◌, ◌≡◌, refl, ap, subst, inl, inr, true, false, not, some, List, [], ◌∷◌, map, all,
  filter, length, get_elem?, All, Result, ok, err, ◌==◌, arith, Bool-cases,
}
use nivra.Prelude.Int.{◌≤ℤ◌, ltb_ℤ}
use nivra.Time.{Instant, add_days}
use nivra.Rentals.Handover.{distinct}
use nivra.Listings.Rows.{Photo, Block, Listing, ListingError}
use nivra.Listings.Contents.{
  photo_id, contains, index_of, ordered_by, reorder_row, parse_ranges, with_block, horizon_days,
}

abbrev without : ℕ → List ℕ → List ℕ
without x ks = filter (λ y. not (y == x)) ks

==_self : (x : ℕ) → (x == x) ≡ true
==_self x = ground arith

contains-without :
    (x y : ℕ) (ks : List ℕ) → (y == x) ≡ false → contains (without x ks) y ≡ contains ks y
contains-without x y [] h = refl
contains-without x y (k ∷ ks) h = ground (arith, contains-without x y ks h)

distinct_absent : (x : ℕ) (ks : List ℕ) → contains ks x ≡ false → without x ks ≡ ks
distinct_absent x [] h = refl
distinct_absent x (k ∷ ks) h = ground (arith, distinct_absent x ks)

distinct-without :
    (x : ℕ) (ks : List ℕ) → contains ks x ≡ true → distinct ks ≡ suc (distinct (without x ks))
unfolding distinct
distinct-without x [] h = absurd (ground arith)
distinct-without x (k ∷ ks) h = elim (Bool-cases (k == x)) [
  | inl same ↦ elim (Bool-cases (contains ks x)) [
    | inl again ↦
        (let e : k ≡ x = ground arith in rw (e, ==_self x, again) (distinct-without x ks again))
    | inr last ↦
        (let e : k ≡ x = ground arith in
          rw (e, ==_self x, last, distinct_absent x ks last) (omega arith))
  ]
  | inr other ↦
      (let member : contains ks x ≡ true = rw other at h in
        let e = distinct-without x ks member in
        rw (other, contains-without x k ks other) (ground (arith, e)))
]

distinct-le-length : (ks : List ℕ) → distinct ks ≤ length ks
unfolding distinct
distinct-le-length [] = omega arith
distinct-le-length (k ∷ ks) = ground (arith, distinct-le-length ks)

all-without :
    (x : ℕ) (ks xs : List ℕ)
    → contains xs x ≡ false
    → all (contains ks) xs ≡ true
    → all (contains (without x ks)) xs ≡ true
all-without x ks [] absent h = refl
all-without x ks (y ∷ ys) absent h = ground (arith, all-without x ks ys, contains-without x y ks)

-- Different members of a list are at most as many as its different members.
length-le-distinct :
    (xs ks : List ℕ)
    → distinct xs ≡ length xs
    → all (contains ks) xs ≡ true
    → length xs ≤ distinct ks
unfolding distinct
length-le-distinct [] ks once within = omega arith
length-le-distinct (x ∷ xs) ks once within = ground (
  arith,
  distinct-le-length xs,
  distinct-without x ks,
  all-without x ks xs,
  length-le-distinct xs (without x ks),
)

-- A list of different members, as many as there are, has every member.
contains-all :
    (ids ks : List ℕ) (k : ℕ)
    → length ids ≡ distinct ks
    → distinct ids ≡ length ids
    → all (contains ks) ids ≡ true
    → contains ks k ≡ true
    → contains ids k ≡ true
unfolding distinct
contains-all ids ks k as_many once within member = elim (Bool-cases (contains ids k)) [
  | inl here ↦ here
  | inr missing ↦ absurd (ground (arith, length-le-distinct (k ∷ ids) ks))
]

get_elem?-index_of :
    (x : ℕ) (ids : List ℕ) → contains ids x ≡ true → get_elem? ids (index_of x ids) ≡ some x
unfolding index_of
get_elem?-index_of x [] h = absurd (ground arith)
get_elem?-index_of x (y ∷ ys) h = ground (arith, get_elem?-index_of x ys)

placed :
    (ids : List ℕ) (ps : List Photo)
    → ((k : ℕ) → contains (map photo_id ps) k ≡ true → contains ids k ≡ true)
    → All (λ (p : Photo). get_elem? ids p.sort_order ≡ some p.id) (map (ordered_by ids) ps)
      × (map photo_id (map (ordered_by ids) ps) ≡ map photo_id ps)
unfolding index_of
placed ids [] listed = (tt, refl)
placed ids (p ∷ ps) listed =
    let here : contains ids p.id ≡ true = listed p.id (ground arith) in
    let (rest, same) = placed ids ps (λ k h. listed k (ground arith)) in
    rw here ((get_elem?-index_of p.id ids here, rest), ap (◌∷◌ p.id) same)

-- A reordering that succeeds gives each photo the place at which the list names it, and keeps the
-- photos.
reorder-placed :
    (ids : List ℕ) (l l' : Listing)
    → reorder_row ids l ≡ ok l'
    → All (λ (p : Photo). get_elem? ids p.sort_order ≡ some p.id) l'.photos
      × (map photo_id l'.photos ≡ map photo_id l.photos)
unfolding reorder_row
reorder-placed ids l l' h =
    let known = map photo_id l.photos in
    let whole : (length ids ≡ distinct known)
        × (distinct ids ≡ length ids)
        × (all (contains known) ids ≡ true)
        × (l'.photos ≡ map (ordered_by ids) l.photos) =
      ground arith in
    rw whole.3 (placed ids l.photos (λ k. contains-all ids known k whole.0 whole.1 whole.2))

abbrev pub IsWithin : Instant → Block → Type 0
IsWithin today b =
    (today ≤ℤ b.starts_on) × (b.starts_on ≤ℤ b.ends_on) × (b.ends_on ≤ℤ add_days today horizon_days)

abbrev OkWithin : Instant → Result ListingError (List Block) → Type 0
OkWithin today (err e) = Unit
OkWithin today (ok bs) = All (IsWithin today) bs

with_block-OkWithin :
    (today : Instant) (b : Block) (r : Result ListingError (List Block))
    → IsWithin today b
    → OkWithin today r
    → OkWithin today (with_block b r)
with_block-OkWithin today b (err e) h k = tt
with_block-OkWithin today b (ok bs) h k = (h, k)

parse_ranges-OkWithin : (today : Instant) (rs : List Block) → OkWithin today (parse_ranges today rs)
unfolding parse_ranges
parse_ranges-OkWithin today [] = tt
parse_ranges-OkWithin today (r ∷ rs) = elim (Bool-cases (ltb_ℤ r.ends_on r.starts_on)) [
  | inl bad ↦ rw bad tt
  | inr sound ↦ elim (Bool-cases (ltb_ℤ r.ends_on today)) [
    | inl past ↦ rw (sound, past) tt
    | inr ahead ↦ elim (Bool-cases (ltb_ℤ (add_days today horizon_days) r.ends_on)) [
      | inl late ↦ rw (sound, ahead, late) tt
      | inr near ↦
          rw (sound, ahead, near)
            (with_block-OkWithin today _ (parse_ranges today rs)
              (ground arith, ground arith, ground arith) (parse_ranges-OkWithin today rs))
    ]
  ]
]

-- The ranges that are accepted end within a year from today, and are cut to start no earlier than
-- today and no later than they end.
parse_ranges-IsWithin :
    (today : Instant) (rs bs : List Block) → parse_ranges today rs ≡ ok bs → All (IsWithin today) bs
parse_ranges-IsWithin today rs bs h = subst (OkWithin today) h (parse_ranges-OkWithin today rs)
