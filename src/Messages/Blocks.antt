-- ===== src/Messages/Blocks.antt =====
-- `BlocksService`: the rows of `user_blocks`.
use nivra.Prelude.{
  ℕ, Bool, not, ◌&&◌, ◌||◌, List, ◌∷◌, any, filter, Result, ok, err, ◌==◌, if◌then◌else◌,
}

pub record Block : Type 0 where
  pub blocker : ℕ
  pub blocked : ℕ

pub data BlockError : Type 0 where
  self no_user : BlockError

abbrev pub is_block : ℕ → ℕ → Block → Bool
is_block a b x = x.blocker == a && x.blocked == b

-- `block`; a row that is there is not written again.
unfoldable pub block : List Block → ℕ → ℕ → Bool → List Block × Result BlockError (Unit {0})
block bs a b user_exists =
    if a == b
    then (bs, err self)
    else if not user_exists
    then (bs, err no_user)
    else if any (is_block a b) bs
    then (bs, ok tt)
    else (record { blocker = a; blocked = b } ∷ bs, ok tt)

abbrev other_row : ℕ → ℕ → Block → Bool
other_row a b x = not (is_block a b x)

unfoldable pub unblock : List Block → ℕ → ℕ → List Block
unblock bs a b = filter (other_row a b) bs

-- `assertNotBlocked`.
unfoldable pub is_blocked : List Block → ℕ → ℕ → Bool
is_blocked bs a b = any (is_block a b) bs || any (is_block b a) bs
