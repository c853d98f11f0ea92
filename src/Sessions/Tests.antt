-- ===== src/Sessions/Tests.antt =====
-- A session with one token, refreshed once.
use nivra.Prelude.{ℕ, ◌≡◌, refl, Bool, true, false, none, [], ◌∷◌, ok, err}
use nivra.Prelude.Int.{pos}
use nivra.Time.{Instant}
use nivra.Sessions.Tokens.{
  Realm, user, Session, refresh_reuse, reused, invalid_token, revoke, checked, read, exchanged,
  commit, rotate, is_active,
}
use nivra.Sessions.Reuse.{commit_twice, rotate_again}

abbrev one_token : Session
one_token = record {
  realm = user;
  expires_at = pos 100;
  revoked_at = none;
  reason = none;
  tokens = record { hash = 11; used_at = none; expires_at = pos 100 } ∷ [];
}

abbrev refreshed : Session
refreshed = exchanged one_token 11 12 (pos 150) (pos 50)

refresh_ok : rotate one_token user 11 12 true (pos 150) (pos 50) ≡ ok refreshed
unfolding rotate read checked commit
refresh_ok = refl

commits : commit one_token 11 12 (pos 150) (pos 50) ≡ ok refreshed
unfolding commit
commits = refl

rotate_again_example :
    let dead = revoke refreshed refresh_reuse (pos 60) in
    (rotate refreshed user 11 13 true (pos 160) (pos 60) ≡ err (reused, dead))
    × ((at : Instant) → is_active dead at ≡ false)
    × ((r : Realm) (any_hash next' : ℕ) (b : Bool) (slid' at : Instant)
        → rotate dead r any_hash next' b slid' at ≡ err (invalid_token, dead))
rotate_again_example =
    rotate_again one_token refreshed user 11 12 13 true true (pos 150) (pos 50) (pos 160) (pos 60)
      refl refresh_ok

commit_twice_example :
    commit refreshed 11 13 (pos 150) (pos 50)
    ≡ err (reused, revoke refreshed refresh_reuse (pos 50))
commit_twice_example =
    commit_twice one_token refreshed 11 12 13 (pos 150) (pos 50) (pos 150) (pos 50) refl commits
