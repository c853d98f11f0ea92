-- ===== src/Prelude/Lists.antt =====
-- Lists over the native numbers: length, Boolean searches, and the predicate that every item meets.
use Prim.Native.Nat.{ℕ, zero, suc, ◌+◌}
use mathlib.Core.Path.{◌≡◌, refl, ap, subst}
use mathlib.Core.Logic.{◌⊎◌, inl, inr}
use mathlib.Core.Bool.{Bool, true, false, ◌&&◌, ◌||◌}
use mathlib.Core.Option.{Option, none, some}
use mathlib.Core.List.{List, [], ◌∷◌, ◌++◌, map}
use native.Mathlib.Omega.{arith}
use nivra.Prelude.Tests.{if◌then◌else◌, Bool-cases}

module _ {ℓ} {A : Type ℓ} where
  abbrev pub length : List A → ℕ
  length [] = 0
  length (x ∷ xs) = suc (length xs)

  -- Array.prototype.some and every.
  abbrev pub any : (A → Bool) → List A → Bool
  any p [] = false
  any p (x ∷ xs) = p x || any p xs

  abbrev pub all : (A → Bool) → List A → Bool
  all p [] = true
  all p (x ∷ xs) = p x && all p xs

  -- Array.prototype.filter and find.
  abbrev pub filter : (A → Bool) → List A → List A
  filter p [] = []
  filter p (x ∷ xs) = let rest = filter p xs in if p x then x ∷ rest else rest

  abbrev pub find : (A → Bool) → List A → Option A
  find p [] = none
  find p (x ∷ xs) = if p x then some x else find p xs

  -- The first row that meets the test is written again.
  abbrev pub replace_first : (A → Bool) → A → List A → List A
  replace_first p new [] = []
  replace_first p new (x ∷ xs) =
      let rest = replace_first p new xs in if p x then new ∷ xs else x ∷ rest

  abbrev pub get_elem? : List A → ℕ → Option A
  get_elem? [] i = none
  get_elem? (x ∷ xs) zero = some x
  get_elem? (x ∷ xs) (suc i) = get_elem? xs i

  -- Prisma's `take`.
  abbrev pub take : ℕ → List A → List A
  take zero xs = []
  take (suc n) [] = []
  take (suc n) (x ∷ xs) = x ∷ take n xs

abbrev pub All {ℓ κ} : {A : Type ℓ} → (A → Type κ) → List A → Type κ
All P [] = Unit
All P (x ∷ xs) = P x × All P xs

module _ {ℓ κ} {A : Type ℓ} (P : A → Type κ) where
  pub All-append : (xs ys : List A) → All P xs → All P ys → All P (xs ++ ys)
  All-append [] ys hx hy = hy
  All-append (x ∷ xs) ys hx hy = (hx.0, All-append xs ys hx.1 hy)

-- Searching, and the row that was found written again.
module _ {ℓ} {A : Type ℓ} (p : A → Bool) where
  pub find-meets : (xs : List A) {x : A} → find p xs ≡ some x → p x ≡ true
  find-meets [] h = absurd (ground arith)
  find-meets (y ∷ ys) {x = x} h = ground (arith, find-meets ys {x = x})

  module _ (q : A → Bool) (x x' : A) where
    pub find-any : (xs : List A) → find p xs ≡ some x → q x ≡ true → any q xs ≡ true
    find-any [] h e = absurd (ground arith)
    find-any (y ∷ ys) h e = ground (arith, find-any ys)

    pub any-replace_first :
        (xs : List A)
        → find p xs ≡ some x
        → (q x ≡ true → q x' ≡ true)
        → any q xs ≡ true
        → any q (replace_first p x' xs) ≡ true
    any-replace_first [] h keeps e = e
    any-replace_first (y ∷ ys) h keeps e = ground (arith, any-replace_first ys)

    pub any-replaced :
        (xs : List A) → find p xs ≡ some x → q x' ≡ true → any q (replace_first p x' xs) ≡ true
    any-replaced [] h e = absurd (ground arith)
    any-replaced (y ∷ ys) h e = ground (arith, any-replaced ys)

    pub any_of_replace_first :
        (xs : List A) → any q (replace_first p x' xs) ≡ true → (any q xs ≡ true) ⊎ (q x' ≡ true)
    any_of_replace_first [] e = inl e
    any_of_replace_first (y ∷ ys) e = ground (arith, any_of_replace_first ys)

  pub find-All {κ} : (P : A → Type κ) (xs : List A) {x : A} → find p xs ≡ some x → All P xs → P x
  find-All P [] h all_hold = absurd (ground arith)
  find-All P (y ∷ ys) {x = x} h all_hold = elim (Bool-cases (p y)) [
    | inl here ↦ (let same : y ≡ x = ground arith in subst P same all_hold.0)
    | inr other ↦
        (let later : find p ys ≡ some x = ground arith in find-All P ys {x = x} later all_hold.1)
  ]

  pub All-replace_first {κ} :
      (P : A → Type κ) (x x' : A) (xs : List A)
      → find p xs ≡ some x
      → (P x → P x')
      → All P xs
      → All P (replace_first p x' xs)
  All-replace_first P x x' [] h keeps all_hold = all_hold
  All-replace_first P x x' (y ∷ ys) h keeps all_hold = elim (Bool-cases (p y)) [
    | inl here ↦
        (let same : y ≡ x = ground arith in rw here (keeps (subst P same all_hold.0), all_hold.1))
    | inr other ↦
        (let later : find p ys ≡ some x = ground arith in
          rw other (all_hold.0, All-replace_first P x x' ys later keeps all_hold.1))
  ]

pub length-append {ℓ} : {A : Type ℓ} (xs ys : List A) → length (xs ++ ys) ≡ length xs + length ys
length-append [] ys = omega arith
length-append (x ∷ xs) ys = omega (arith, length-append xs ys)

pub length-map {ℓ κ} :
    {A : Type ℓ} {B : Type κ} (f : A → B) (xs : List A) → length (map f xs) ≡ length xs
length-map f [] = refl
length-map f (x ∷ xs) = ap suc (length-map f xs)
