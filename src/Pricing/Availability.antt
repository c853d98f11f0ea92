-- ===== src/Pricing/Availability.antt =====
-- When a quote is available, stated by the days that are shared with a blocked range.
use nivra.Prelude.{
  ℕ, ◌+◌, ◌*◌, ◌≡◌, ◌↔◌, refl, true, false, Bool-cases, inl, inr, List, [], ◌∷◌, All, any, arith,
  not, is_some,
}
use nivra.Prelude.Int.{ℤ, pos, ◌+ℤ◌, ◌-ℤ◌, ◌≤ℤ◌, int_laws, max_ℤ}
use nivra.Time.{Instant, day_ms, add_days}
use nivra.Pricing.Quotes.{DateRange, PricingInput, quote, rental_days, reason_for, overlaps}

-- From a day to the day `n` days later there are `n + 1` rental days: both ends count.
pub rental_days-add_days :
    (start : Instant) (n : ℕ) → rental_days start (add_days start n) ≡ pos (n + 1)
unfolding rental_days
rental_days-add_days start n =
    let e : add_days start n -ℤ start ≡ pos (n * day_ms) = (unfold add_days in omega int_laws) in
    rw e (unfold ◌+ℤ◌ in ground arith)

-- No instant lies both in the rental and in the blocked range.
abbrev pub IsApart : Instant → Instant → DateRange → Type 0
IsApart start end b = (t : Instant) → start ≤ℤ t → t ≤ℤ end → b.starts_on ≤ℤ t → t ≤ℤ b.ends_on → ⊥

overlaps_iff :
    (start end : Instant) (b : DateRange)
    → start ≤ℤ end
    → b.starts_on ≤ℤ b.ends_on
    → (overlaps start end b ≡ false) ↔ IsApart start end b
overlaps_iff start end b ordered valid =
    (λ h t p q r s. ground arith, λ apart. ground (arith, apart (max_ℤ start b.starts_on)))

abbrev pub IsOrdered : DateRange → Type 0
IsOrdered b = b.starts_on ≤ℤ b.ends_on

any-overlaps_iff :
    (start end : Instant) (bs : List DateRange)
    → start ≤ℤ end
    → All IsOrdered bs
    → (any (overlaps start end) bs ≡ false) ↔ All (IsApart start end) bs
any-overlaps_iff start end [] o v = (λ h. tt, λ h. refl)
any-overlaps_iff start end (b ∷ bs) o v =
    let one = overlaps_iff start end b o v.0 in
    let rest = any-overlaps_iff start end bs o v.1 in
    (
      λ h. elim (Bool-cases (overlaps start end b)) [
        | inl hit ↦ absurd (let clash : true ≡ false = rw hit at h in cc)
        | inr miss ↦
            (let h' : any (overlaps start end) bs ≡ false = rw miss at h in (one.0 miss, rest.0 h'))
      ],
      λ h. rw (one.1 h.0) (rest.1 h.1),
    )

reason_for_none :
    (input : PricingInput) (days : ℤ) (start end today : Instant)
    → (not (is_some (reason_for input days start end today)) ≡ true) ↔ (
        (pos input.min_days ≤ℤ days)
        × (days ≤ℤ pos input.max_days)
        × (add_days today input.advance_notice_days ≤ℤ start)
        × (any (overlaps start end) input.blocks ≡ false))
unfolding reason_for
reason_for_none input days start end today = (λ h. ground arith, λ h. ground arith)

-- A quote is available exactly when the rental is within the listing's limits on days, starts
-- after the notice the lender needs, and has no instant in common with a blocked range. (The
-- database keeps each range in order, and the callers check the dates.)
quote_available_iff :
    (input : PricingInput) (start end today : Instant)
    → start ≤ℤ end
    → All IsOrdered input.blocks
    → ((quote input start end today).available ≡ true) ↔ (
        (pos input.min_days ≤ℤ rental_days start end)
        × (rental_days start end ≤ℤ pos input.max_days)
        × (add_days today input.advance_notice_days ≤ℤ start)
        × All (IsApart start end) input.blocks)
quote_available_iff input start end today ordered valid =
    let r = reason_for_none input (rental_days start end) start end today in
    let free = any-overlaps_iff start end input.blocks ordered valid in
    unfold quote in
    (
      λ h. let (low, high, notice, clear) = r.0 h in (low, high, notice, free.0 clear),
      λ h. r.1 (h.0, h.1, h.2, free.1 h.3),
    )
