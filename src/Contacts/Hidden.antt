-- ===== src/Contacts/Hidden.antt =====
-- No phone number of whole groups is left in a run.
use nivra.Contacts.Grouped.{Ordered, digits_of, groups_at-Ordered, phone-short}
use nivra.Prelude.{
  ℕ, zero, suc, ◌≤◌, ◌<◌, ◌≡◌, ◌⊎◌, refl, subst, inl, inr, Bool, true, false, ◌&&◌, Option, none,
  some, List, [], ◌∷◌, ◌++◌, any, length, leb, if◌then◌else◌, arith, Bool-cases, Option-cases,
  length-append,
}
use mathlib.Core.List.{append_assoc, append-nil}
use nivra.Contacts.Masking.{
  Group, groups_at, is_phone, one_further, phone_at, plus_before, spans_from, spans,
}

step_cases :
    (x y : Bool) (end stop more : ℕ) (later : Option (ℕ × ℕ))
    → (if x then none else if y then some (end, 0) else one_further later) ≡ some (stop, more)
    → ((end ≡ stop) × (more ≡ 0)) ⊎ ((n : ℕ) × (more ≡ suc n) × (later ≡ some (stop, n)))
step_cases true y end stop more later h = absurd (ground arith)
step_cases false true end stop more later h = inl (ground arith)
step_cases false false end stop more none h = absurd (ground arith)
step_cases false false end stop more (some (s, n)) h = inr (n, ground arith, ground arith)

-- A number ends at the first group, or further.
phone_at-cases :
    (ds : List ℕ) (g : Group) (gs : List Group) (stop more : ℕ)
    → phone_at ds (g ∷ gs) ≡ some (stop, more)
    → ((g.stop ≡ stop) × (more ≡ 0))
      ⊎ ((n : ℕ) × (more ≡ suc n) × (phone_at (ds ++ g.digits) gs ≡ some (stop, n)))
unfolding phone_at
phone_at-cases ds g gs stop more h =
    step_cases (leb 13 (length ds)) (is_phone (ds ++ g.digits)) g.stop stop more
      (phone_at (ds ++ g.digits) gs) h

stop-ge :
    (ds : List ℕ) (gs : List Group) (lo stop more : ℕ)
    → Ordered lo gs
    → phone_at ds gs ≡ some (stop, more)
    → lo ≤ stop
unfolding Ordered phone_at
stop-ge ds [] lo stop more ordered h = absurd (ground arith)
stop-ge ds (g ∷ gs) lo stop more (after, long, full, rest) h =
    elim (phone_at-cases ds g gs stop more h) [
      | inl (here, last) ↦ omega (arith, here, after, long)
      | inr (n, further, later) ↦
          omega (arith, after, long, stop-ge (ds ++ g.digits) gs g.stop stop n rest later)
    ]

-- The groups that a number takes lie before its end.
phone_at-within :
    (ds : List ℕ) (before : List Group) (x : Group) (after : List Group) (lo stop more : ℕ)
    → Ordered lo (before ++ x ∷ after)
    → phone_at ds (before ++ x ∷ after) ≡ some (stop, more)
    → length before ≤ more
    → (lo ≤ x.start) × (x.stop ≤ stop)
unfolding Ordered
phone_at-within ds [] x after lo stop more (low, long, full, rest) h in_number =
    elim (phone_at-cases ds x after stop more h) [
      | inl (here, last) ↦ (low, omega (arith, here))
      | inr (n, further, later) ↦ (low, stop-ge (ds ++ x.digits) after x.stop stop n rest later)
    ]
phone_at-within ds (b ∷ bs) x after lo stop more (low, long, full, rest) h in_number =
    elim (phone_at-cases ds b (bs ++ x ∷ after) stop more h) [
      | inl (here, last) ↦ absurd (omega (arith, last, in_number))
      | inr (n, further, later) ↦
          (let (start, ends) =
              phone_at-within (ds ++ b.digits) bs x after b.stop stop n rest later
                (omega (arith, further, in_number)) in
            (omega (arith, low, long, start), ends))
    ]

found_now :
    (ds : List ℕ) (g : Group) (gs : List Group)
    → length ds < 13
    → is_phone (ds ++ g.digits) ≡ true
    → phone_at ds (g ∷ gs) ≡ some (g.stop, 0)
unfolding phone_at
found_now ds g gs short h = rw h (ground arith)

found_later :
    (ds : List ℕ) (g : Group) (gs : List Group) {stop more : ℕ}
    → length ds < 13
    → is_phone (ds ++ g.digits) ≡ false
    → phone_at (ds ++ g.digits) gs ≡ some (stop, more)
    → phone_at ds (g ∷ gs) ≡ some (stop, suc more)
unfolding phone_at
found_later ds g gs short other later = rw (other, later) (ground arith)

short_before :
    (ds xs ys : List ℕ) → 0 < length xs → is_phone (ds ++ (xs ++ ys)) ≡ true → length ds < 13
short_before ds xs ys full h = omega (
  arith,
  phone-short (ds ++ (xs ++ ys)) h,
  length-append ds (xs ++ ys),
  length-append xs ys,
  full,
)

-- Groups that make a number are found.
phone_at-found :
    (ds : List ℕ) (m : Group) (mid after : List Group) (lo : ℕ)
    → Ordered lo (m ∷ mid ++ after)
    → is_phone (ds ++ digits_of (m ∷ mid)) ≡ true
    → (stop : ℕ) × (more : ℕ) × (phone_at ds (m ∷ mid ++ after) ≡ some (stop, more))
unfolding Ordered
phone_at-found ds m [] after lo (low, long, full, rest) h =
    let whole : is_phone (ds ++ m.digits) ≡ true = rw (append-nil m.digits) at h in
    (m.stop, 0, found_now ds m after (short_before ds m.digits [] full h) whole)
phone_at-found ds m (x ∷ mid) after lo (low, long, full, rest) h =
    let short = short_before ds m.digits (digits_of (x ∷ mid)) full h in
    elim (Bool-cases (is_phone (ds ++ m.digits))) [
      | inl now ↦ (m.stop, 0, found_now ds m (x ∷ mid ++ after) short now)
      | inr other ↦
          (let (stop, more, later) =
              phone_at-found (ds ++ m.digits) x mid after m.stop rest
                (rw (append_assoc ds m.digits (digits_of (x ∷ mid))) h) in
            (stop, suc more, found_later ds m (x ∷ mid ++ after) short other later))
    ]

-- Whether the group lies in a span that is masked.
abbrev pub covers : Group → ℕ × ℕ → Bool
covers g (start, stop) = leb start g.start && leb g.stop stop

plus_before-le : (run : List ℕ) (start : ℕ) → plus_before run start ≤ start
unfolding plus_before
plus_before-le run start = ground arith

covered_now :
    (g m : Group) (run : List ℕ) (stop : ℕ) (ss : List (ℕ × ℕ))
    → g.start ≤ m.start
    → m.stop ≤ stop
    → any (covers m) ((plus_before run g.start, stop) ∷ ss) ≡ true
covered_now g m run stop ss low high =
    let from : plus_before run g.start ≤ m.start = omega (arith, plus_before-le run g.start, low) in
    ground arith

any-later :
    (m : Group) (s : ℕ × ℕ) (ss : List (ℕ × ℕ))
    → any (covers m) ss ≡ true
    → any (covers m) (s ∷ ss) ≡ true
any-later m s ss h = ground arith

spans_found :
    (run : List ℕ) (g : Group) (gs : List Group) (stop more : ℕ)
    → phone_at [] (g ∷ gs) ≡ some (stop, more)
    → spans_from zero run (g ∷ gs) ≡ (plus_before run g.start, stop) ∷ spans_from more run gs
unfolding spans_from
spans_found run g gs stop more h = rw (h, spans_from) refl

spans_none :
    (run : List ℕ) (g : Group) (gs : List Group)
    → phone_at [] (g ∷ gs) ≡ none
    → spans_from zero run (g ∷ gs) ≡ spans_from zero run gs
unfolding spans_from
spans_none run g gs h = rw (h, spans_from) refl

masked_of : {k : ℕ} {x : Bool} → (k < 0) ⊎ (x ≡ true) → x ≡ true
masked_of (inl taken) = absurd (omega (arith, taken))
masked_of (inr masked) = masked

-- The first group of a number is taken by a number that was found before, or is masked.
spans_from-covers :
    (n : ℕ) (run : List ℕ) (before : List Group) (m : Group) (mid after : List Group) (lo : ℕ)
    → Ordered lo (before ++ (m ∷ mid ++ after))
    → is_phone (digits_of (m ∷ mid)) ≡ true
    → (length before < n)
      ⊎ (any (covers m) (spans_from n run (before ++ (m ∷ mid ++ after))) ≡ true)
unfolding spans_from Ordered
spans_from-covers (suc n) run [] m mid after lo ordered h = inl (omega arith)
spans_from-covers zero run [] m mid after lo (low, long, full, rest) h =
    let own : Ordered m.start (m ∷ mid ++ after) = (omega arith, long, full, rest) in
    let (stop, more, found) = phone_at-found [] m mid after m.start own h in
    let (start, ends) =
      phone_at-within [] [] m (mid ++ after) m.start stop more own found (omega arith) in
    inr (
      rw (spans_found run m (mid ++ after) stop more found)
        (covered_now m m run stop (spans_from more run (mid ++ after)) start ends))
spans_from-covers (suc n) run (b ∷ bs) m mid after lo (low, long, full, rest) h =
    elim (spans_from-covers n run bs m mid after b.stop rest h) [
      | inl taken ↦ inl (omega (arith, taken))
      | inr masked ↦ inr masked
    ]
spans_from-covers zero run (b ∷ bs) m mid after lo (low, long, full, rest) h =
    let gs = bs ++ (m ∷ mid ++ after) in
    inr (elim (Option-cases (phone_at [] (b ∷ gs))) [
      | inl missing ↦
          rw (spans_none run b gs missing)
            (masked_of (spans_from-covers zero run bs m mid after b.stop rest h))
      | inr ((stop, more), found) ↦
          rw (spans_found run b gs stop more found)
            (elim (spans_from-covers more run bs m mid after b.stop rest h) [
              | inl taken ↦
                  (let own : Ordered b.start (b ∷ gs) = (omega arith, long, full, rest) in
                    let (start, ends) =
                      phone_at-within [] (b ∷ bs) m (mid ++ after) b.start stop more own found
                        (omega (arith, taken)) in
                    covered_now b m run stop (spans_from more run gs) start ends)
              | inr masked ↦
                  any-later m (plus_before run b.start, stop) (spans_from more run gs) masked
            ])
    ])

-- In whatever run, the first digits of each phone number that whole groups of digits make, one next
-- to the other, are masked.
pub phone-covered :
    (run : List ℕ) (before : List Group) (m : Group) (mid after : List Group)
    → groups_at 0 run ≡ before ++ (m ∷ mid ++ after)
    → is_phone (digits_of (m ∷ mid)) ≡ true
    → any (covers m) (spans run) ≡ true
phone-covered run before m mid after grouped h =
    let ordered : Ordered 0 (before ++ (m ∷ mid ++ after)) =
      subst (Ordered 0) grouped (groups_at-Ordered 0 run) in
    rw grouped (masked_of (spans_from-covers zero run before m mid after 0 ordered h))
