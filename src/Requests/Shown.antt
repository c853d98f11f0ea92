-- ===== src/Requests/Shown.antt =====
-- Who sees which answers to a request.
use nivra.Prelude.{
  ℕ, ◌≡◌, ◌⊎◌, refl, inl, inr, Bool, true, false, not, ◌&&◌, ◌||◌, Option, none, some, List, [],
  ◌∷◌, filter, find, All, arith, Bool-cases, ◌==◌, if◌then◌else◌,
}
use nivra.Time.{Instant}
use nivra.Requests.Board.{ItemRequest, Response, Store, has_id, is_open_at, shown_to, get}

shown_own :
    (viewer : ℕ) (r : ItemRequest) (ps : List Response)
    → (r.borrower == viewer) ≡ false
    → All (λ p. p.lender ≡ viewer) (filter (shown_to viewer r) ps)
shown_own viewer r [] h = tt
shown_own viewer r (p ∷ ps) h = elim (Bool-cases (shown_to viewer r p)) [
  | inl shown ↦ rw shown (ground arith, shown_own viewer r ps h)
  | inr dropped ↦ rw dropped (shown_own viewer r ps h)
]

-- What `get` shows of a request that was found.
shown_found :
    (viewer : ℕ) (r : ItemRequest) (hides : Bool) (ps shown : List Response)
    → (if not (r.borrower == viewer) && hides then none else some (filter (shown_to viewer r) ps))
      ≡ some shown
    → (r.borrower ≡ viewer) ⊎ ((hides ≡ false) × All (λ p. p.lender ≡ viewer) shown)
shown_found viewer r hides ps shown h = elim (Bool-cases (r.borrower == viewer)) [
  | inl mine ↦ inl (ground arith)
  | inr other ↦ elim (Bool-cases hides) [
    | inl hidden ↦
        absurd (let refused : none ≡ some shown = rw (other, hidden) at h in ground arith)
    | inr seen ↦
        (let e : some (filter (shown_to viewer r) ps) ≡ some shown = rw (other, seen) at h in
          let same : filter (shown_to viewer r) ps ≡ shown = cc in
          inr (seen, rw (← same) (shown_own viewer r ps other)))
  ]
]

found_cases :
    (viewer : ℕ) (m : Option ItemRequest) (k : ItemRequest → Option (List Response))
    {shown : List Response}
    → (elim m as (λ x. Option (List Response)) [ none ↦ none | some r ↦ k r ]) ≡ some shown
    → (r : ItemRequest) × (m ≡ some r) × (k r ≡ some shown)
found_cases viewer none k h = absurd (ground arith)
found_cases viewer (some r) k h = (r, refl, h)

-- A request that is shown to somebody is their own, or it is open, by an active person who is not
-- blocked, and each answer that they see to it is theirs.
get-shown :
    (s : Store) (viewer id : ℕ) (borrower_active blocked : Bool) (now : Instant)
    (shown : List Response)
    → get s viewer id borrower_active blocked now ≡ some shown
    → (r : ItemRequest) × (find (has_id id) s.requests ≡ some r)
      × ((r.borrower ≡ viewer)
          ⊎ ((is_open_at now r ≡ true)
              × (borrower_active ≡ true)
              × (blocked ≡ false)
              × All (λ p. p.lender ≡ viewer) shown))
unfolding get
get-shown s viewer id borrower_active blocked now shown h =
    let (r, found, e) =
      found_cases viewer (find (has_id id) s.requests)
        (λ r.
          if not (r.borrower == viewer)
            && (not (is_open_at now r) || not borrower_active || blocked)
          then none
          else some (filter (shown_to viewer r) s.responses))
        h in
    elim (shown_found viewer r (not (is_open_at now r) || not borrower_active || blocked)
      s.responses shown e) [
        | inl mine ↦ (r, found, inl mine)
        | inr (seen, own) ↦ (r, found, inr (ground arith, ground arith, ground arith, own))
      ]
