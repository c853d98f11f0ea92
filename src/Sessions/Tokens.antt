-- ===== src/Sessions/Tokens.antt =====
-- One session with its refresh tokens: `rotate`, `revoke` and the test of `findActive`. A token is
-- known by its hash, a number here; a new token's hash is an argument. Concurrent calls are the
-- sequences of `read` and `commit`, the two parts of `rotate`: the commit is one transaction.
use nivra.Prelude.{
  ℕ, Bool, true, false, not, ◌&&◌, ◌||◌, Option, none, some, is_some, List, [], ◌∷◌, find, Result,
  ok, err, ◌==◌, if◌then◌else◌,
}
use nivra.Prelude.Int.{leb_ℤ, ltb_ℤ}
use nivra.Time.{Instant}

pub data Realm : Type 0 where
  user admin : Realm

pub record Token : Type 0 where
  pub hash : ℕ
  pub used_at : Option Instant
  pub expires_at : Instant

pub data RevokeReason : Type 0 where
  refresh_reuse account_inactive other : RevokeReason

pub record Session : Type 0 where
  pub realm : Realm
  pub expires_at : Instant
  pub revoked_at : Option Instant
  pub reason : Option RevokeReason
  pub tokens : List Token

pub data RotateError : Type 0 where
  invalid_token reused token_expired suspended : RotateError

abbrev pub same_realm : Realm → Realm → Bool
same_realm user user = true
same_realm admin admin = true
same_realm r s = false

abbrev pub has_hash : ℕ → Token → Bool
has_hash h t = t.hash == h

-- `updateMany where revokedAt: null`.
unfoldable pub revoke : Session → RevokeReason → Instant → Session
revoke s reason now =
    if is_some s.revoked_at then s else record s { revoked_at = some now; reason = some reason }

abbrev pub mark : Instant → Token → Token
mark now t = record t { used_at = some now }

-- Marks the tokens of the hash as used; hashes are unique in the table.
unfoldable pub mark_used : ℕ → Instant → List Token → List Token
mark_used h now [] = []
mark_used h now (t ∷ ts) =
    let rest = mark_used h now ts in if has_hash h t then mark now t ∷ rest else t ∷ rest

abbrev pub is_unused : ℕ → Token → Bool
is_unused h t = has_hash h t && not (is_some t.used_at)

-- A new expiry: a user's session slides, an admin's does not.
abbrev pub next_expiry : Realm → Instant → Instant → Instant
next_expiry user slid fixed = slid
next_expiry admin slid fixed = fixed

-- The checks before the transaction: an error with the session it leaves, or go ahead. The token is
-- the one with the presented hash.
unfoldable pub checked :
    Option Token → Session → Realm → Bool → Instant → Result (RotateError × Session) (Unit {0})
unfolding revoke
checked none s realm active now = err (invalid_token, s)
checked (some t) s realm active now =
    if not (same_realm s.realm realm) || is_some s.revoked_at
    then err (invalid_token, s)
    else if is_some t.used_at
    then err (reused, revoke s refresh_reuse now)
    else if leb_ℤ t.expires_at now || leb_ℤ s.expires_at now
    then err (token_expired, s)
    else if not active
    then err (suspended, revoke s account_inactive now)
    else ok tt

unfoldable pub read :
    Session → Realm → ℕ → Bool → Instant → Result (RotateError × Session) (Unit {0})
unfolding checked
read s realm h active now = checked (find (has_hash h) s.tokens) s realm active now

-- The rows after the exchange: the old token is used, and the new one has the new expiry.
unfoldable pub exchanged : Session → ℕ → ℕ → Instant → Instant → Session
unfolding mark_used
exchanged s h next slid now =
    let expires_at = next_expiry s.realm slid s.expires_at in
    record s {
      expires_at = expires_at;
      tokens =
          record { hash = next; used_at = none; expires_at = expires_at }
          ∷ mark_used h now s.tokens;
    }

-- The transaction: only a token that is still unused is exchanged; otherwise the session is revoked.
unfoldable pub commit : Session → ℕ → ℕ → Instant → Instant → Result (RotateError × Session) Session
unfolding revoke exchanged
commit s h next slid now = elim (find (is_unused h) s.tokens) [
  | none ↦ err (reused, revoke s refresh_reuse now)
  | some t ↦ ok (exchanged s h next slid now)
]

abbrev pub then_commit :
    Result (RotateError × Session) (Unit {0})
    → Session
    → ℕ
    → ℕ
    → Instant
    → Instant
    → Result (RotateError × Session) Session
then_commit (err e) s h next slid now = err e
then_commit (ok u) s h next slid now = commit s h next slid now

-- `rotate`: presented hash `h`, the new token's hash, whether the subject is active, the new expiry
-- of a user's session, and the time.
unfoldable pub rotate :
    Session → Realm → ℕ → ℕ → Bool → Instant → Instant → Result (RotateError × Session) Session
unfolding read commit
rotate s realm h next active slid now = then_commit (read s realm h active now) s h next slid now

-- The condition of `findActive`.
unfoldable pub is_active : Session → Instant → Bool
is_active s now = not (is_some s.revoked_at) && ltb_ℤ now s.expires_at
