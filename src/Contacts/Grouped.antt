-- ===== src/Contacts/Grouped.antt =====
-- The groups of digits of a run stand in order, and a phone number is short.
use nivra.Prelude.{
  ℕ, suc, ◌≤◌, ◌<◌, ◌≡◌, inl, inr, true, List, [], ◌∷◌, ◌++◌, length, ◌==◌, arith, Bool-cases,
}
use nivra.Contacts.Masking.{Group, is_digit, join, groups_at, is_ten_from, is_phone}

-- Groups that follow each other from the position `lo`, none of them empty.
unfoldable pub Ordered : ℕ → List Group → Type 0
Ordered lo [] = Unit
Ordered lo (g ∷ gs) =
    (lo ≤ g.start) × (g.start < g.stop) × (0 < length g.digits) × Ordered g.stop gs

join-Ordered : (i c : ℕ) (gs : List Group) → Ordered (suc i) gs → Ordered i (join i c gs)
unfolding join Ordered
join-Ordered i c [] h = (omega arith, omega arith, omega arith, tt)
join-Ordered i c (g ∷ gs) (after, long, full, rest) = elim (Bool-cases (g.start == suc i)) [
  | inl next ↦ rw next (omega arith, omega (arith, after, long), omega arith, rest)
  | inr apart ↦ rw apart (omega arith, omega arith, omega arith, (after, long, full, rest))
]

earlier-Ordered : (i : ℕ) (gs : List Group) → Ordered (suc i) gs → Ordered i gs
unfolding Ordered
earlier-Ordered i [] h = tt
earlier-Ordered i (g ∷ gs) (after, long, full, rest) = (omega (arith, after), long, full, rest)

pub groups_at-Ordered : (i : ℕ) (cs : List ℕ) → Ordered i (groups_at i cs)
unfolding groups_at Ordered
groups_at-Ordered i [] = tt
groups_at-Ordered i (c ∷ cs) = elim (Bool-cases (is_digit c)) [
  | inl digit ↦ rw digit (join-Ordered i c (groups_at (suc i) cs) (groups_at-Ordered (suc i) cs))
  | inr other ↦ rw other (earlier-Ordered i (groups_at (suc i) cs) (groups_at-Ordered (suc i) cs))
]

-- The digits of groups that stand next to each other.
abbrev pub digits_of : List Group → List ℕ
digits_of [] = []
digits_of (g ∷ gs) = g.digits ++ digits_of gs

ten_digits : (a : ℕ) (ds : List ℕ) → is_ten_from a ds ≡ true → length ds ≡ 10
unfolding is_ten_from
ten_digits a [] h = absurd (ground arith)
ten_digits a (c ∷ cs) h = ground arith

pub phone-short : (ds : List ℕ) → is_phone ds ≡ true → length ds ≤ 13
unfolding is_phone
phone-short ds h = elim (Bool-cases (is_ten_from 54 ds)) [
  | inl mobile ↦ omega (arith, ten_digits 54 ds mobile)
  | inr longer ↦ ground arith
]
