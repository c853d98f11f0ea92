-- ===== src/Sessions/Reuse.antt =====
-- A refresh token works once, and presenting it again ends the session.
use nivra.Prelude.{
  ℕ, ◌≡◌, refl, ◌⊎◌, inl, inr, Bool, true, false, Bool-cases, Option, none, some, is_some, List, [],
  ◌∷◌, find, Result, ok, err, ◌==◌, arith,
}
use nivra.Time.{Instant}
use nivra.Sessions.Tokens.{
  Realm, user, admin, Token, Session, RevokeReason, refresh_reuse, RotateError, reused,
  invalid_token, has_hash, revoke, mark, mark_used, is_unused, read, checked, exchanged, commit,
  rotate, then_commit, next_expiry, same_realm, is_active,
}

no_unused :
    (h : ℕ) (now : Instant) (ts : List Token) → find (is_unused h) (mark_used h now ts) ≡ none
unfolding mark_used
no_unused h now [] = refl
no_unused h now (t ∷ ts) = elim (Bool-cases (has_hash h t)) [
  | inl mine ↦ rw (mine, mine) (no_unused h now ts)
  | inr other ↦ rw (other, other) (no_unused h now ts)
]

find-mark_used :
    (h : ℕ) (now : Instant) (ts : List Token) (t : Token)
    → find (has_hash h) ts ≡ some t
    → find (has_hash h) (mark_used h now ts) ≡ some (mark now t)
unfolding mark_used
find-mark_used h now [] t e = absurd (ground arith)
find-mark_used h now (q ∷ ts) t e = elim (Bool-cases (has_hash h q)) [
  | inl mine ↦ (let found : q ≡ t = ground arith in rw (mine, mine, found) refl)
  | inr other ↦
      (let later : find (has_hash h) ts ≡ some t = ground arith in
        rw (other, other) (find-mark_used h now ts t later))
]

exchanged_of :
    (o : Option Token) (e : RotateError × Session) (x s' : Session)
    → elim o [ none ↦ err e | some t ↦ ok x ] ≡ ok s'
    → s' ≡ x
exchanged_of none e x s' h = absurd (ground arith)
exchanged_of (some t) e x s' h = ground arith

commit-exchanged :
    (s s' : Session) (h next : ℕ) (slid now : Instant)
    → commit s h next slid now ≡ ok s'
    → s' ≡ exchanged s h next slid now
unfolding commit
commit-exchanged s s' h next slid now e =
    exchanged_of (find (is_unused h) s.tokens) (reused, revoke s refresh_reuse now)
      (exchanged s h next slid now) s' e

exchanged_has_no_unused :
    (s : Session) (h next : ℕ) (slid now : Instant)
    → (next == h) ≡ false
    → find (is_unused h) (exchanged s h next slid now).tokens ≡ none
unfolding exchanged
exchanged_has_no_unused s h next slid now fresh = rw fresh (no_unused h now s.tokens)

-- Of two refreshes that read the same unused token at once, the second to commit fails and revokes
-- the session.
pub commit_twice :
    (s s' : Session) (h next₁ next₂ : ℕ) (slid₁ now₁ slid₂ now₂ : Instant)
    → (next₁ == h) ≡ false
    → commit s h next₁ slid₁ now₁ ≡ ok s'
    → commit s' h next₂ slid₂ now₂ ≡ err (reused, revoke s' refresh_reuse now₂)
unfolding commit
commit_twice s s' h next₁ next₂ slid₁ now₁ slid₂ now₂ fresh e =
    let same = commit-exchanged s s' h next₁ slid₁ now₁ e in
    let gone : find (is_unused h) s'.tokens ≡ none =
      rw same (exchanged_has_no_unused s h next₁ slid₁ now₁ fresh) in
    rw (gone, commit) refl

-- The checks of `rotate` pass only for a known token of a session that is not revoked, in the realm.
checked-ok :
    (o : Option Token) (s : Session) (realm : Realm) (active : Bool) (now : Instant)
    → checked o s realm active now ≡ ok tt
    → (t : Token) × (o ≡ some t)
      × (same_realm s.realm realm ≡ true)
      × (is_some s.revoked_at ≡ false)
unfolding checked
checked-ok none s realm active now e = absurd (ground arith)
checked-ok (some t) s realm active now e = (t, refl, ground arith, ground arith)

then_commit-ok :
    (r : Result (RotateError × Session) (Unit {0})) (s s' : Session) (h next : ℕ)
    (slid now : Instant)
    → then_commit r s h next slid now ≡ ok s'
    → (r ≡ ok tt) × (commit s h next slid now ≡ ok s')
then_commit-ok (err e) s s' h next slid now k = absurd (ground arith)
then_commit-ok (ok u) s s' h next slid now k = (refl, k)

-- What a refresh that succeeds has done.
rotate-ok :
    (s s' : Session) (realm : Realm) (h next : ℕ) (active : Bool) (slid now : Instant)
    → rotate s realm h next active slid now ≡ ok s'
    → (t : Token) × (find (has_hash h) s.tokens ≡ some t)
      × (same_realm s.realm realm ≡ true)
      × (is_some s.revoked_at ≡ false)
      × (s' ≡ exchanged s h next slid now)
unfolding rotate read
rotate-ok s s' realm h next active slid now e =
    let (went, done) = then_commit-ok (read s realm h active now) s s' h next slid now e in
    let (t, found, mine, live) = checked-ok (find (has_hash h) s.tokens) s realm active now went in
    (t, found, mine, live, commit-exchanged s s' h next slid now done)

checked-used :
    (t : Token) (s : Session) (realm : Realm) (active : Bool) (now : Instant)
    → same_realm s.realm realm ≡ true
    → is_some s.revoked_at ≡ false
    → is_some t.used_at ≡ true
    → checked (some t) s realm active now ≡ err (reused, revoke s refresh_reuse now)
unfolding checked
checked-used t s realm active now mine live spent = rw (mine, live, spent, checked) refl

checked-revoked :
    (o : Option Token) (s : Session) (realm : Realm) (active : Bool) (now : Instant)
    → is_some s.revoked_at ≡ true
    → checked o s realm active now ≡ err (invalid_token, s)
unfolding checked
checked-revoked none s realm active now dead = refl
checked-revoked (some t) s realm active now dead = elim (Bool-cases (same_realm s.realm realm)) [
  | inl mine ↦ rw (mine, dead, checked) refl
  | inr other ↦ rw (other, checked) refl
]

revoke-dead :
    (s : Session) (r : RevokeReason) (now : Instant) → is_some (revoke s r now).revoked_at ≡ true
unfolding revoke
revoke-dead s r now = elim (Bool-cases (is_some s.revoked_at)) [
  | inl dead ↦ rw (dead, dead) refl
  | inr live ↦ rw live refl
]

rotate_used :
    (s s' : Session) (realm : Realm) (h next h₂ : ℕ) (active active₂ : Bool)
    (slid now slid₂ now₂ : Instant)
    → (next == h) ≡ false
    → rotate s realm h next active slid now ≡ ok s'
    → rotate s' realm h h₂ active₂ slid₂ now₂ ≡ err (reused, revoke s' refresh_reuse now₂)
unfolding rotate read exchanged
rotate_used s s' realm h next h₂ active active₂ slid now slid₂ now₂ fresh e =
    let (t, found, mine, live, same) = rotate-ok s s' realm h next active slid now e in
    let again : find (has_hash h) s'.tokens ≡ some (mark now t) =
      rw (same, fresh) (find-mark_used h now s.tokens t found) in
    let mine' : same_realm s'.realm realm ≡ true = rw same mine in
    let live' : is_some s'.revoked_at ≡ false = rw same live in
    rw (again, checked-used (mark now t) s' realm active₂ now₂ mine' live' refl) refl

rotate_dead :
    (s : Session) (realm : Realm) (h next : ℕ) (active : Bool) (slid now : Instant)
    → is_some s.revoked_at ≡ true
    → rotate s realm h next active slid now ≡ err (invalid_token, s)
unfolding rotate read
rotate_dead s realm h next active slid now dead =
    rw (checked-revoked (find (has_hash h) s.tokens) s realm active now dead) refl

-- After a refresh, presenting the old token again fails as a reuse and revokes the session, and from
-- then on no token of the session, the newest included, is exchanged and the session is not active.
pub rotate_again :
    (s s' : Session) (realm : Realm) (h next h₂ : ℕ) (active active₂ : Bool)
    (slid now slid₂ now₂ : Instant)
    → (next == h) ≡ false
    → rotate s realm h next active slid now ≡ ok s'
    → let dead = revoke s' refresh_reuse now₂ in
      (rotate s' realm h h₂ active₂ slid₂ now₂ ≡ err (reused, dead))
      × ((at : Instant) → is_active dead at ≡ false)
      × ((r : Realm) (any_hash next' : ℕ) (b : Bool) (slid' at : Instant)
          → rotate dead r any_hash next' b slid' at ≡ err (invalid_token, dead))
unfolding is_active
rotate_again s s' realm h next h₂ active active₂ slid now slid₂ now₂ fresh e =
    let gone = revoke-dead s' refresh_reuse now₂ in
    (
      rotate_used s s' realm h next h₂ active active₂ slid now slid₂ now₂ fresh e,
      λ at. rw gone refl,
      λ r any_hash next' b slid' at.
          rotate_dead (revoke s' refresh_reuse now₂) r any_hash next' b slid' at gone,
    )

-- A refresh makes a user's session last until the new expiry, never moves the end of an admin's
-- session, and gives the new token the session's end.
rotate-expiry :
    (s s' : Session) (realm : Realm) (h next : ℕ) (active : Bool) (slid now : Instant)
    → rotate s realm h next active slid now ≡ ok s'
    → (((realm ≡ user) × (s'.expires_at ≡ slid))
        ⊎ ((realm ≡ admin) × (s'.expires_at ≡ s.expires_at)))
      × ((t : Token) × (find (has_hash next) s'.tokens ≡ some t)
          × (t.expires_at ≡ s'.expires_at)
          × (t.used_at ≡ none))
unfolding exchanged
rotate-expiry s s' realm h next active slid now e =
    let (t, found, mine, live, same) = rotate-ok s s' realm h next active slid now e in
    let same_id : (next == next) ≡ true = ground arith in
    rw (same, same_id)
      ((
        ground arith,
        (
          record {
            hash = next;
            used_at = none;
            expires_at = next_expiry s.realm slid s.expires_at;
          },
          refl,
          refl,
          refl,
        ),
      ))
