-- ===== src/Acting/Swept.antt =====
-- The sweep of the timers leaves nothing overdue.
use nivra.Prelude.{
  ℕ, zero, suc, ◌≤◌, ◌≡◌, ◌⊎◌, refl, inl, inr, Bool, true, false, Option, none, some, List, [], ◌∷◌,
  any, filter, length, Result, ok, err, arith, Bool-cases, ap, sym,
}
use nivra.Prelude.Int.{◌≤ℤ◌}
use nivra.Time.{Instant}
use nivra.Bookings.Status.{includes, returned, completed, expired}
use nivra.Bookings.Policy.{Windows}
use nivra.Machine.Rows.{World}
use nivra.Machine.Transition.{TransitionError, is_due, expirable, expire_if_due}
use nivra.Machine.Timer.{expire_if_due-due}
use nivra.Acting.Calls.{is_overdue, then_rest, expire_all, expire_due, expire_take}

closed_not_overdue :
    (now : Instant) (d : World)
    → (d.booking.status ≡ completed ⊎ d.booking.status ≡ expired)
    → is_overdue now d ≡ false
closed_not_overdue now d (inl e) = rw e refl
closed_not_overdue now d (inr e) = rw e refl

overdue_at :
    (now : Instant) (o : Option Instant)
    → is_due o now ≡ true
    → (deadline : Instant) × (o ≡ some deadline) × (deadline ≤ℤ now)
overdue_at now none h = absurd (ground arith)
overdue_at now (some d) h = (d, refl, ground arith)

one_swept :
    (w : Windows) (d : World) (now clock : Instant)
    → is_overdue now d ≡ true
    → (d' : World) × (expire_if_due w d now clock ≡ ok (true, d')) × (is_overdue now d' ≡ false)
one_swept w d now clock h =
    let tests : (includes (returned ∷ expirable) d.booking.status ≡ true)
        × (is_due d.booking.expires_at now ≡ true) =
      ground arith in
    let (deadline, timed, late) = overdue_at now d.booking.expires_at tests.1 in
    let (d', ran, shut, ended) = expire_if_due-due w d now clock deadline timed late tests.0 in
    (d', ran, closed_not_overdue now d' ended)

none_left {ℓ} :
    {A : Type ℓ} (p : A → Bool) (xs : List A)
    → length (filter p xs) ≤ 0
    → (any p xs ≡ false) × (length (filter p xs) ≡ 0)
none_left p [] h = (refl, refl)
none_left p (x ∷ xs) h = elim (Bool-cases (p x)) [
  | inl over ↦ absurd (ground arith)
  | inr past ↦ rw past (none_left p xs (rw past at h))
]

swept_then :
    (now : Instant) (d d' : World) (ds : List World) (n : ℕ)
    (rest : List World × Result TransitionError ℕ)
    → is_overdue now d' ≡ false
    → (any (is_overdue now) rest.0 ≡ false) × (rest.1 ≡ ok n)
    → (any (is_overdue now) (then_rest d ds (ok (true, d')) rest).0 ≡ false)
      × ((then_rest d ds (ok (true, d')) rest).1 ≡ ok (suc n))
swept_then now d d' ds n (ds', err e) clear (none_over, count) = absurd (ground arith)
swept_then now d d' ds n (ds', ok m) clear (none_over, count) = (rw clear none_over, ground arith)

-- Each one that is overdue is ended, up to the number that are taken.
expire_all-clears :
    (w : Windows) (now clock : Instant) (n : ℕ) (ds : List World)
    → length (filter (is_overdue now) ds) ≤ n
    → (any (is_overdue now) (expire_all w now clock n ds).0 ≡ false)
      × ((expire_all w now clock n ds).1 ≡ ok (length (filter (is_overdue now) ds)))
unfolding expire_all
expire_all-clears w now clock zero ds h =
    let (clear, count) = none_left (is_overdue now) ds h in (clear, ap ok (sym count))
expire_all-clears w now clock (suc n) [] h = (refl, refl)
expire_all-clears w now clock (suc n) (d ∷ ds) h = elim (Bool-cases (is_overdue now d)) [
  | inl due ↦
      let (d', ran, clear) = one_swept w d now clock due in
      let some_left : suc (length (filter (is_overdue now) ds)) ≤ suc n = rw due at h in
      let fewer : length (filter (is_overdue now) ds) ≤ n = ground arith in
      rw (due, ran) (swept_then now d d' ds _ _ clear (expire_all-clears w now clock n ds fewer))
  | inr not_due ↦
      let (clear, count) = expire_all-clears w now clock (suc n) ds (rw not_due at h) in
      rw not_due (rw not_due clear, count)
]

-- With at most `expire_take` overdue bookings.
pub expire_due-clears :
    (w : Windows) (ds : List World) (now clock : Instant)
    → length (filter (is_overdue now) ds) ≤ expire_take
    → (any (is_overdue now) (expire_due w ds now clock).0 ≡ false)
      × ((expire_due w ds now clock).1 ≡ ok (length (filter (is_overdue now) ds)))
unfolding expire_due
expire_due-clears w ds now clock h = expire_all-clears w now clock expire_take ds h
