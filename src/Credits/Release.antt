-- ===== src/Credits/Release.antt =====
-- Holding credit for a booking and giving it back.
use nivra.Prelude.{
  ℕ, ◌<◌, ◌≡◌, refl, true, false, inl, inr, Option, none, some, ◌∷◌, any, find, arith,
}
use nivra.Prelude.Int.{ℤ, pos, ◌+ℤ◌, ◌-ℤ◌, ◌≤ℤ◌, ◌<ℤ◌, int_laws, leb_ℤ}
use nivra.Credits.Entries.{
  CreditEntry, CreditKind, Entries, entry, credit_balance, credit_limit_for, hold_credit,
  release_credit, release_hold, holds_for, releases_for, hold, release,
}
use nivra.Credits.Balance.{hold_credit-cases}

credit_balance-entry :
    (es : Entries) (u : ℕ) (b : Option ℕ) (x : ℤ) (k : CreditKind)
    → credit_balance (entry u b x k ∷ es) u ≡ x +ℤ credit_balance es u
unfolding credit_balance
credit_balance-entry es u b x k = ground arith

credit_limit_for_half : (rent : ℕ) (x : ℤ) → x ≤ℤ credit_limit_for (pos rent) → x +ℤ x ≤ℤ pos rent
unfolding credit_limit_for
credit_limit_for_half rent x h = omega int_laws

-- The credit that a booking takes is never negative, never more than the person has, at most half
-- of a rent that is not negative, and leaves exactly the balance less itself.
pub hold_credit_bounds :
    (es es' : Entries) (u b rent : ℕ) {x : ℤ}
    → pos 0 ≤ℤ credit_balance es u
    → hold_credit es u b (pos rent) ≡ some (x, es')
    → (pos 0 ≤ℤ x)
      × (x ≤ℤ credit_balance es u)
      × (x +ℤ x ≤ℤ pos rent)
      × (credit_balance es' u ≡ credit_balance es u -ℤ x)
hold_credit_bounds es es' u b rent {x = x} has h =
    elim (hold_credit-cases es es' u b (pos rent) x h) [
      | inl (nothing, same) ↦
          rw (nothing, same) (omega int_laws, omega arith, omega int_laws, omega int_laws)
      | inr (above, within, limit, fresh, e) ↦ (
        omega int_laws,
        within,
        credit_limit_for_half rent x limit,
        rw (e, credit_balance-entry es u (some b) (pos 0 -ℤ x) hold) (omega int_laws),
      )
    ]

-- The hold entry at the head of the table is the one that is found.
found_hold :
    (es : Entries) (u b : ℕ) (y : ℤ)
    → find (holds_for b) (entry u (some b) y hold ∷ es) ≡ some (entry u (some b) y hold)
found_hold es u b y = ground arith

found_released :
    (es : Entries) (u b : ℕ) (x y : ℤ)
    → find (holds_for b) (entry u (some b) x release ∷ entry u (some b) y hold ∷ es)
      ≡ some (entry u (some b) y hold)
found_released es u b x y = ground arith

released_once :
    (es : Entries) (u b : ℕ) (x : ℤ) → any (releases_for b) (entry u (some b) x release ∷ es) ≡ true
released_once es u b x = ground arith

-- A hold of `x` that was not released is given back whole, and a released one is not.
release_whole :
    (es : Entries) (u b : ℕ) (x : ℤ)
    → any (releases_for b) es ≡ false
    → pos 0 <ℤ x
    → release_hold (entry u (some b) (pos 0 -ℤ x) hold) es b none
      ≡ (x, entry u (some b) x release ∷ es)
unfolding release_hold
release_whole es u b x unreleased above =
    let held : pos 0 -ℤ (pos 0 -ℤ x) ≡ x = omega int_laws in
    let positive : leb_ℤ x (pos 0) ≡ false = ground arith in
    let least : leb_ℤ x x ≡ true = ground arith in rw (held, least, positive, unreleased) refl

release_again :
    (h : CreditEntry) (es : Entries) (b : ℕ) (w : Option ℤ)
    → any (releases_for b) es ≡ true
    → release_hold h es b w ≡ (pos 0, es)
unfolding release_hold
release_again h es b w already = ground arith

-- A booking's hold that gave nothing back yet is given back whole, wherever in the table it stands.
pub release_found :
    (es : Entries) (h : CreditEntry) (b n : ℕ)
    → find (holds_for b) es ≡ some h
    → h.amount ≡ pos 0 -ℤ pos n
    → any (releases_for b) es ≡ false
    → 0 < n
    → credit_balance (release_credit es b none).1 h.user ≡ credit_balance es h.user +ℤ pos n
unfolding release_credit release_hold
release_found es h b n found amount unreleased above =
    let held : pos 0 -ℤ (pos 0 -ℤ pos n) ≡ pos n = omega int_laws in
    let positive : leb_ℤ (pos n) (pos 0) ≡ false = ground arith in
    let least : leb_ℤ (pos n) (pos n) ≡ true = ground arith in
    rw (found, release_credit)
      (rw (amount, held, least, positive, unreleased)
        (rw (credit_balance-entry es h.user (some b) (pos n) release) (omega int_laws)))

-- Releasing right after the hold entry of a booking that gave nothing back yet.
release_new :
    (es : Entries) (u b : ℕ) (x : ℤ)
    → any (releases_for b) es ≡ false
    → pos 0 <ℤ x
    → release_credit (entry u (some b) (pos 0 -ℤ x) hold ∷ es) b none
      ≡ (x, entry u (some b) x release ∷ entry u (some b) (pos 0 -ℤ x) hold ∷ es)
unfolding release_credit
release_new es u b x unreleased above =
    rw (found_hold es u b (pos 0 -ℤ x), release_credit)
      (release_whole (entry u (some b) (pos 0 -ℤ x) hold ∷ es) u b x unreleased above)

release_twice :
    (es : Entries) (u b : ℕ) (x y : ℤ) (w : Option ℤ)
    → release_credit (entry u (some b) x release ∷ entry u (some b) y hold ∷ es) b w
      ≡ (pos 0, entry u (some b) x release ∷ entry u (some b) y hold ∷ es)
unfolding release_credit
release_twice es u b x y w =
    rw (found_released es u b x y, release_credit)
      (release_again (entry u (some b) y hold)
        (entry u (some b) x release ∷ entry u (some b) y hold ∷ es) b w
        (released_once (entry u (some b) y hold ∷ es) u b x))

balance_back :
    (es : Entries) (u : ℕ) (b : Option ℕ) (x : ℤ)
    → credit_balance (entry u b x release ∷ entry u b (pos 0 -ℤ x) hold ∷ es) u
      ≡ credit_balance es u
balance_back es u b x =
    rw
      (
        credit_balance-entry (entry u b (pos 0 -ℤ x) hold ∷ es) u b x release,
        credit_balance-entry es u b (pos 0 -ℤ x) hold,
      )
      (omega int_laws)

-- The credit that a booking just took comes back whole when the booking does not go ahead: the
-- person's balance is what it was, and giving it back a second time adds nothing.
pub release-hold_credit :
    (es es' : Entries) (u b rent : ℕ) (x : ℤ)
    → any (releases_for b) es ≡ false
    → pos 0 <ℤ x
    → hold_credit es u b (pos rent) ≡ some (x, es')
    → let (given, after) = release_credit es' b none in
      (given ≡ x)
      × (credit_balance after u ≡ credit_balance es u)
      × ((w : Option ℤ) → release_credit after b w ≡ (pos 0, after))
release-hold_credit es es' u b rent x unreleased above h =
    elim (hold_credit-cases es es' u b (pos rent) x h) [
      | inl (nothing, same) ↦ absurd (ground arith)
      | inr (positive, within, limit, fresh, e) ↦
          rw (e, release_new es u b x unreleased above)
            (refl, balance_back es u (some b) x, release_twice es u b x (pos 0 -ℤ x))
    ]
