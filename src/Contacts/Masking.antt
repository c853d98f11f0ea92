-- ===== src/Contacts/Masking.antt =====
-- `maskPhonesInRun` and `isPhone`: a run of digits and separators, as a list of code points.
use nivra.Prelude.{
  ℕ, zero, suc, ◌-◌, Bool, true, false, ◌&&◌, Option, none, some, List, [], ◌∷◌, ◌++◌, all, length,
  leb, ltb, ◌==◌, if◌then◌else◌, get_elem?,
}

pub record Group : Type 0 where
  pub start : ℕ
  pub stop : ℕ
  pub digits : List ℕ

abbrev pub is_digit : ℕ → Bool
is_digit c = leb 48 c && leb c 57

-- `•••`
abbrev mask : List ℕ
mask = 8226 ∷ 8226 ∷ 8226 ∷ []

-- A digit at `i` before the groups of what follows it.
unfoldable pub join : ℕ → ℕ → List Group → List Group
join i c [] = record { start = i; stop = suc i; digits = c ∷ [] } ∷ []
join i c (g ∷ gs) =
    if g.start == suc i
    then record { start = i; stop = g.stop; digits = c ∷ g.digits } ∷ gs
    else record { start = i; stop = suc i; digits = c ∷ [] } ∷ g ∷ gs

-- `run.matchAll(/\d+/g)`, from the position `i`.
unfoldable pub groups_at : ℕ → List ℕ → List Group
unfolding join
groups_at i [] = []
groups_at i (c ∷ cs) = let rest = groups_at (suc i) cs in if is_digit c then join i c rest else rest

unfoldable pub take : ℕ → List ℕ → List ℕ
take zero cs = []
take (suc n) [] = []
take (suc n) (c ∷ cs) = c ∷ take n cs

unfoldable pub drop : ℕ → List ℕ → List ℕ
drop zero cs = cs
drop (suc n) [] = []
drop (suc n) (c ∷ cs) = drop n cs

unfoldable pub starts_with : List ℕ → List ℕ → Bool
starts_with [] cs = true
starts_with (p ∷ ps) [] = false
starts_with (p ∷ ps) (c ∷ cs) = p == c && starts_with ps cs

-- `/^[a-9]\d{9}$/`, by the code of `a`.
unfoldable pub is_ten_from : ℕ → List ℕ → Bool
is_ten_from a [] = false
is_ten_from a (c ∷ cs) = leb a c && leb c 57 && all is_digit cs && length cs == 9

abbrev pub is_mobile : List ℕ → Bool
unfolding is_ten_from
is_mobile ds = is_ten_from 54 ds

unfoldable pub is_phone : List ℕ → Bool
unfolding is_ten_from drop starts_with
is_phone ds =
    if is_mobile ds
    then true
    else if length ds == 12 && starts_with (57 ∷ 49 ∷ []) ds
    then is_mobile (drop 2 ds)
    else if length ds == 13 && starts_with (48 ∷ 57 ∷ 49 ∷ []) ds
    then is_mobile (drop 3 ds)
    else if length ds == 11 && starts_with (48 ∷ []) ds
    then is_ten_from 49 (drop 1 ds)
    else false

abbrev pub one_further : Option (ℕ × ℕ) → Option (ℕ × ℕ)
one_further none = none
one_further (some (stop, more)) = some (stop, suc more)

-- The inner loop: where the number that starts at the first group ends, and how many groups more it
-- takes. `ds` is what was read so far.
unfoldable pub phone_at : List ℕ → List Group → Option (ℕ × ℕ)
unfolding is_phone
phone_at ds [] = none
phone_at ds (g ∷ gs) =
    let later = phone_at (ds ++ g.digits) gs in
    if leb 13 (length ds)
    then none
    else if is_phone (ds ++ g.digits)
    then some (g.stop, 0)
    else one_further later

abbrev is_plus : Option ℕ → Bool
is_plus none = false
is_plus (some c) = c == 43

-- A leading `+` is part of the number.
unfoldable pub plus_before : List ℕ → ℕ → ℕ
plus_before run start =
    if ltb 0 start && is_plus (get_elem? run (start - 1)) then start - 1 else start

-- The outer loop; the first groups, as many as the first argument, belong to a number that was found.
unfoldable pub spans_from : ℕ → List ℕ → List Group → List (ℕ × ℕ)
unfolding phone_at plus_before
spans_from n run [] = []
spans_from (suc n) run (g ∷ gs) = spans_from n run gs
spans_from zero run (g ∷ gs) = elim (phone_at [] (g ∷ gs)) [
  | none ↦ spans_from zero run gs
  | some (stop, more) ↦ (plus_before run g.start, stop) ∷ spans_from more run gs
]

abbrev pub spans : List ℕ → List (ℕ × ℕ)
spans run = spans_from 0 run (groups_at 0 run)

abbrev mask_span : List ℕ → ℕ × ℕ → List ℕ
unfolding take drop
mask_span out (start, stop) = take start out ++ mask ++ drop stop out

-- The last span first.
unfoldable pub mask_spans : List ℕ → List (ℕ × ℕ) → List ℕ
unfolding take drop
mask_spans run [] = run
mask_spans run (s ∷ ss) = mask_span (mask_spans run ss) s

unfoldable pub mask_phones_in_run : List ℕ → List ℕ
unfolding mask_spans groups_at spans_from
mask_phones_in_run run = mask_spans run (spans run)
