-- ===== src/Sharing/Picked.antt =====
-- What a borrower has shared when the call succeeds.
use nivra.Prelude.{
  ℕ, ◌≡◌, ◌≢◌, refl, subst, ◌∙◌, inl, inr, Bool, true, false, not, Option, none, some, List, [],
  ◌∷◌, ◌++◌, ◌&&◌, ◌==◌, any, find, find-any, find-meets, Result, ok, err, if◌then◌else◌, arith,
  Option-cases,
}
use nivra.Time.{Instant}
use nivra.Bookings.Status.{
  Status, awaiting_docs, borrower, party, Actor, Action, submit_docs, is_open,
}
use nivra.Bookings.Rules.{BookingState, next_status}
use nivra.Bookings.Policy.{Windows, satisfies}
use nivra.Machine.Rows.{Share, World, state_of}
use nivra.Machine.Transition.{TransitionError, Patch, no_patch, transition_row, write}
use nivra.Machine.Outcome.{transition_row-cases, transition_row-ne-none}
use nivra.Rentals.Handover.{party_for, is_borrower, is_none}
use nivra.Sharing.Documents.{
  RequiredDoc, Choice, VaultDocument, SharingError, not_found, not_allowed, choices_differ,
  storage_failed, Shared, Copies, Run, is_own, is_refused, has_expired, checked, pick,
  is_choice_for, add_picked, pick_all, moved_to, with_shares, submitted_with, submit, choices_match,
}

-- The choice of a document of the vault for one that the listing asks for.
abbrev pub is_choice_of : ℕ → ℕ → Choice → Bool
is_choice_of required document c = c.required == required && c.document == document

-- The rows share, for each document that the listing asks for, the one that the person chose for it,
-- which is their own and in their vault, was not refused, has not expired and is of a type that will do.
abbrev pub Answers :
    List VaultDocument → ℕ → List Choice → Instant → List RequiredDoc → List Share → Type 0
Answers vault user cs today [] [] = Unit
Answers vault user cs today [] (x ∷ xs) = ⊥
Answers vault user cs today (r ∷ rs) [] = ⊥
Answers vault user cs today (r ∷ rs) (x ∷ xs) =
    ((x.required ≡ r.id)
      × (any (is_choice_of r.id x.document) cs ≡ true)
      × ((v : VaultDocument) × (find (is_own user x.document) vault ≡ some v)
          × (is_refused v.status ≡ false)
          × (has_expired v.expires_on today ≡ false)
          × (satisfies r.doc_type v.type ≡ true)))
    × Answers vault user cs today rs xs

checked-ok :
    (r : RequiredDoc) (today : Instant) (v x : VaultDocument)
    → checked r today v ≡ ok x
    → (v ≡ x)
      × (is_refused v.status ≡ false)
      × (has_expired v.expires_on today ≡ false)
      × (satisfies r.doc_type v.type ≡ true)
checked-ok r today v x h = ground arith

abbrev OkAnswers :
    List VaultDocument
    → ℕ
    → List Choice
    → Instant
    → List RequiredDoc
    → Result SharingError (List Share)
    → Type 0
OkAnswers vault user cs today rs (err e) = Unit
OkAnswers vault user cs today rs (ok xs) = Answers vault user cs today rs xs

guard-ok :
    (test : Bool) (s : Shared) (e : SharingError) (k : Run)
    → (if test then (s, err e) else k).1 ≡ ok tt
    → (test ≡ false) × ((if test then (s, err e) else k) ≡ k)
guard-ok true s e k h = absurd (ground arith)
guard-ok false s e k h = (refl, refl)

moved_to-ok :
    (s : Shared) (m : Result TransitionError (Option World))
    → m ≢ ok none
    → (moved_to s m).1 ≡ ok tt
    → (d : World) × (m ≡ ok (some d)) × ((moved_to s m).0 ≡ record s { world = d })
moved_to-ok s (err e) ran h = absurd (ground arith)
moved_to-ok s (ok none) ran h = absurd (ran refl)
moved_to-ok s (ok (some d)) ran h = (d, refl, refl)

-- A document that will do.
abbrev WillDo :
    List VaultDocument → ℕ → List Choice → Instant → RequiredDoc → VaultDocument → Type 0
WillDo vault user cs today r v =
    (any (is_choice_of r.id v.id) cs ≡ true)
    × (find (is_own user v.id) vault ≡ some v)
    × (is_refused v.status ≡ false)
    × (has_expired v.expires_on today ≡ false)
    × (satisfies r.doc_type v.type ≡ true)

found-WillDo :
    (vault : List VaultDocument) (user : ℕ) (cs : List Choice) (today : Instant) (r : RequiredDoc)
    (id : ℕ) (v : VaultDocument)
    → any (is_choice_of r.id id) cs ≡ true
    → find (is_own user id) vault ≡ some v
    → checked r today v ≡ ok v
    → WillDo vault user cs today r v
found-WillDo vault user cs today r id v chosen found good =
    let mine = find-meets (is_own user id) vault {x = v} found in
    let same : id ≡ v.id = ground arith in
    let tests = checked-ok r today v v good in
    (rw same at chosen, rw same at found, tests.1, tests.2, tests.3)

pick-WillDo :
    (vault : List VaultDocument) (user : ℕ) (cs : List Choice) (today : Instant) (r : RequiredDoc)
    (v : VaultDocument)
    → pick vault user cs today r ≡ ok v
    → WillDo vault user cs today r v
unfolding pick
pick-WillDo vault user cs today r v h = elim (Option-cases (find (is_choice_for r) cs)) [
  | inl missing ↦ absurd (ground arith)
  | inr (c, chosen) ↦ elim (Option-cases (find (is_own user c.document) vault)) [
    | inl unknown ↦ absurd (ground arith)
    | inr (x, found) ↦
        (let good : checked r today x ≡ ok v = rw (chosen, found, pick) at h in
          let same = (checked-ok r today x v good).0 in
          let for_it = find-meets (is_choice_for r) cs {x = c} chosen in
          let by_choice =
            find-any (is_choice_for r) (is_choice_of r.id c.document) c c cs chosen
              (ground (arith, for_it)) in
          found-WillDo vault user cs today r c.document v by_choice (rw same at found)
            (rw same at good))
  ]
]

add_picked-OkAnswers :
    (vault : List VaultDocument) (user : ℕ) (cs : List Choice) (today : Instant) (k : Copies)
    (r : RequiredDoc) (rs : List RequiredDoc) (m : Result SharingError VaultDocument)
    (rest : Result SharingError (List Share))
    → ((v : VaultDocument) → m ≡ ok v → WillDo vault user cs today r v)
    → OkAnswers vault user cs today rs rest
    → OkAnswers vault user cs today (r ∷ rs) (add_picked k r m rest)
add_picked-OkAnswers vault user cs today k r rs (err e) rest will h = tt
add_picked-OkAnswers vault user cs today k r rs (ok v) (err e) will h = tt
add_picked-OkAnswers vault user cs today k r rs (ok v) (ok xs) will h =
    let good = will v refl in ((refl, good.0, (v, good.1, good.2, good.3, good.4)), h)

pick_all-OkAnswers :
    (vault : List VaultDocument) (user : ℕ) (cs : List Choice) (today : Instant) (k : Copies)
    (rs : List RequiredDoc)
    → OkAnswers vault user cs today rs (pick_all vault user cs today k rs)
unfolding pick_all
pick_all-OkAnswers vault user cs today k [] = tt
pick_all-OkAnswers vault user cs today k (r ∷ rs) =
    add_picked-OkAnswers vault user cs today k r rs (pick vault user cs today r)
      (pick_all vault user cs today k rs) (pick-WillDo vault user cs today r)
      (pick_all-OkAnswers vault user cs today k rs)

submits_to_awaiting_docs :
    (p : Actor) (b : BookingState) (now : Instant) {t : Status}
    → next_status submit_docs p b now ≡ some t
    → t ≡ awaiting_docs
unfolding next_status
submits_to_awaiting_docs p b now h = ground arith

write_awaiting :
    (w : Windows) (d : World) (a : Action) (p : Actor) (patch : Patch) (now : Instant)
    (shares : List Share)
    → ((write w d a p patch now awaiting_docs shares).shares ≡ shares)
      × ((write w d a p patch now awaiting_docs shares).booking.status ≡ awaiting_docs)
unfolding write is_open
write_awaiting w d a p patch now shares = (refl, refl)

-- The transition of a submission that succeeds.
submitted_with-ok :
    (w : Windows) (s : Shared) (k : Copies) (now : Instant) (m : Result SharingError (List Share))
    → (submitted_with w s k now m).1 ≡ ok tt
    → (new : List Share) × (m ≡ ok new)
      × ((submitted_with w s k now m).0.world.shares ≡ new ++ s.world.shares)
      × ((submitted_with w s k now m).0.world.booking.status ≡ awaiting_docs)
submitted_with-ok w s k now (err e) h = absurd (ground arith)
submitted_with-ok w s k now (ok new) h =
    let opts = with_shares (λ old. new ++ old) in
    let m = transition_row w s.world submit_docs (party borrower) opts now in
    let (stored, same) = guard-ok (not k.stored) s storage_failed (moved_to s m) h in
    let (d, moved, e) =
      moved_to-ok s m (transition_row-ne-none w s.world submit_docs (party borrower) opts now refl)
        (rw same at h) in
    let (to, shares, moves, mine, met, wrote) =
      transition_row-cases w s.world submit_docs (party borrower) opts now moved in
    let there =
      submits_to_awaiting_docs (party borrower) (state_of s.world.booking s.world.shares) now
        moves in
    let as_new : shares ≡ new ++ s.world.shares = ground arith in
    let (kept, status) =
      write_awaiting w s.world submit_docs (party borrower) no_patch now shares in
    rw (same, e, wrote, there) (new, refl, kept ∙ as_new, status)

-- Who shares documents with success is the booking's borrower and has chosen one for each that the
-- listing asks for and no other. What is added to the shared ones is, for each that it asks for, the
-- document they chose for it: it is in their own vault, was not refused, has not expired and is of a
-- type that will do. The booking waits for its documents, and the ones shared before stay.
pub submit-Answers :
    (w : Windows) (s : Shared) (required : List RequiredDoc) (vault : List VaultDocument) (user : ℕ)
    (cs : List Choice) (k : Copies) (today now : Instant)
    → (submit w s required vault user cs k today now).1 ≡ ok tt
    → let s' = (submit w s required vault user cs k today now).0 in
      (new : List Share) × Answers vault user cs today required new
      × (s'.world.shares ≡ new ++ s.world.shares)
      × (is_borrower (party_for s.world.booking user) ≡ true)
      × (choices_match required cs ≡ true)
      × (s'.world.booking.status ≡ awaiting_docs)
unfolding submit
submit-Answers w s required vault user cs k today now h =
    let who = party_for s.world.booking user in
    let k₁ = submitted_with w s k now (pick_all vault user cs today k required) in
    let k₂ = if not (choices_match required cs) then (s, err choices_differ) else k₁ in
    let k₃ = if not (is_borrower who) then (s, err not_allowed) else k₂ in
    let (known, e₃) = guard-ok (is_none who) s not_found k₃ h in
    let (mine, e₂) = guard-ok (not (is_borrower who)) s not_allowed k₂ (rw e₃ at h) in
    let (whole, e₁) =
      guard-ok (not (choices_match required cs)) s choices_differ k₁ (rw (e₃, e₂) at h) in
    let (new, picked, added, status) =
      submitted_with-ok w s k now (pick_all vault user cs today k required)
        (rw (e₃, e₂, e₁) at h) in
    let answers =
      subst (OkAnswers vault user cs today required) picked
        (pick_all-OkAnswers vault user cs today k required) in
    rw (e₃, e₂, e₁) (new, answers, added, ground arith, ground arith, status)
