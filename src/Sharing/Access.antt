-- ===== src/Sharing/Access.antt =====
-- Who opens shared documents, and what is left of them.
use nivra.Prelude.{
  ℕ, ◌*◌, ◌≡◌, refl, ap, ◌∙◌, inl, inr, Bool, true, false, not, Option, none, some, List, [], ◌∷◌,
  map, find, All, find-meets, ok, err, ◌==◌, if◌then◌else◌, arith, Option-cases, is_some,
}
use nivra.Prelude.Int.{pos, ◌+ℤ◌, ◌≤ℤ◌}
use nivra.Time.{Instant, day_ms}
use nivra.Bookings.Status.{Status, includes, is, is_open, disputed, document_access_statuses}
use nivra.Machine.Rows.{Share, Booking}
use nivra.Rentals.Handover.{party_for, is_none}
use nivra.Sharing.Documents.{not_found, not_allowed, access_ended, Shared}
use nivra.Sharing.Opening.{
  Side, has_share_id, is_viewable, is_after, key_of, opened, view_found, view_url, purged,
  purge_closed, closed_before,
}

-- The lender has access only while the booking is in progress.
access_is_open : (s : Status) → includes document_access_statuses s ≡ true → is_open s ≡ true
unfolding is_open
access_is_open s h = ground arith

opens :
    (s : Shared) (x : Share) (user key : ℕ) (a b c : Bool) (m : Option ℕ)
    → let run =
        if a
        then (s, err not_found)
        else if not b
        then (s, err not_allowed)
        else if not c
        then (s, err access_ended)
        else opened s x user m in
      run.1 ≡ ok key
      → (b ≡ true)
        × (c ≡ true)
        × (m ≡ some key)
        × (run.0 ≡ record s { views = record { share = x.id; viewer = user } ∷ s.views })
opens s x user key true b c m h = absurd (ground arith)
opens s x user key false false c m h = absurd (ground arith)
opens s x user key false true false m h = absurd (ground arith)
opens s x user key false true true none h = absurd (ground arith)
opens s x user key false true true (some k) h = (refl, refl, ground arith, refl)

viewable :
    (b : Booking) (x : Share) (now : Instant)
    → is_viewable b x now ≡ true
    → (is_open b.status ≡ true) × (x.purged_at ≡ none) × (is_after x.access_expires_at now ≡ true)
unfolding is_viewable
viewable b x now h =
    let tests : (includes document_access_statuses b.status ≡ true)
        × (x.purged_at ≡ none)
        × (is_after x.access_expires_at now ≡ true) =
      ground arith in
    (access_is_open b.status tests.0, tests.1, tests.2)

-- A shared document is opened only by the booking's lender, while the booking is in progress, before
-- its access ends and its files are deleted, and each time it is opened this is logged; nothing else
-- of these rows changes.
pub view_url-logged :
    (s : Shared) (id : ℕ) (side : Side) (user : ℕ) (now : Instant) (key : ℕ)
    → (view_url s id side user now).1 ≡ ok key
    → (s.world.booking.lender ≡ user)
      × (is_open s.world.booking.status ≡ true)
      × ((x : Share) × (find (has_share_id id) s.world.shares ≡ some x)
          × (x.purged_at ≡ none)
          × (is_after x.access_expires_at now ≡ true)
          × (key_of side x ≡ some key))
      × ((view_url s id side user now).0
          ≡ record s { views = record { share = id; viewer = user } ∷ s.views })
unfolding view_url
view_url-logged s id side user now key h =
    elim (Option-cases (find (has_share_id id) s.world.shares)) [
      | inl missing ↦ absurd (ground arith)
      | inr (x, found) ↦
          (let run : (view_found s x side user now).1 ≡ ok key = rw (found, view_url) at h in
            let (lender, may, some_key, logged) =
              opens s x user key (is_none (party_for s.world.booking user))
                (s.world.booking.lender == user) (is_viewable s.world.booking x now) (key_of side x)
                run in
            let (in_progress, kept, in_time) = viewable s.world.booking x now may in
            let same = find-meets (has_share_id id) s.world.shares {x = x} found in
            let same_id : x.id ≡ id = ground arith in
            rw (found, view_url)
              (
                ground arith,
                in_progress,
                (x, refl, kept, in_time, some_key),
                logged
                    ∙ ap
                        (λ (i : ℕ). record s {
                          views = record { share = i; viewer = user } ∷ s.views;
                        })
                        same_id,
              ))
    ]

-- A row whose files were deleted has no key left.
abbrev pub IsClean : Share → Type 0
IsClean x = is_some x.purged_at ≡ true → (x.front_key ≡ none) × (x.back_key ≡ none)

abbrev pub HasNoFiles : Share → Type 0
HasNoFiles x = (x.front_key ≡ none) × (x.back_key ≡ none)

purged-HasNoFiles :
    (now : Instant) (xs : List Share) → All IsClean xs → All HasNoFiles (map (purged now) xs)
purged-HasNoFiles now [] h = tt
purged-HasNoFiles now (x ∷ xs) h = (ground (arith, h.0), purged-HasNoFiles now xs h.1)

-- Once a booking has been closed for the time that copies are kept, the job deletes all of them.
pub purge_closed-HasNoFiles :
    (retention : ℕ) (s : Shared) (now closed : Instant)
    → All IsClean s.world.shares
    → s.world.booking.closed_at ≡ some closed
    → closed +ℤ pos (retention * day_ms) ≤ℤ now
    → is s.world.booking.status disputed ≡ false
    → All HasNoFiles (purge_closed retention s now).world.shares
unfolding purge_closed
purge_closed-HasNoFiles retention s now closed clean shut over settled =
    let due : closed_before s.world.booking retention now ≡ true = rw shut (ground arith) in
    rw (due, settled) (purged-HasNoFiles now s.world.shares clean)
