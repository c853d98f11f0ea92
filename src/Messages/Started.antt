-- ===== src/Messages/Started.antt =====
-- One chat for a listing and a borrower, and none with oneself.
use nivra.Prelude.{
  ℕ, ◌≡◌, refl, Bool, true, false, not, Option, none, some, List, [], ◌∷◌, find, any, ok, err, ◌==◌,
  if◌then◌else◌, arith, inl, inr, Option-cases,
}
use nivra.Listings.Rows.{Listing, Listings}
use nivra.Listings.Review.{public_get}
use nivra.Messages.Blocks.{Block, is_blocked}
use nivra.Messages.Chats.{
  Conversation, StartError, Run, no_listing, own_listing, user_blocked, too_many, not_verified,
  is_about, new_chat, start_with, start, is_live_of, found_or_new, open_for_lender,
}

-- No two rows about the same listing with the same borrower, and none with oneself.
abbrev pub AreApart : List Conversation → Type 0
AreApart [] = Unit
AreApart (c ∷ cs) =
    (any (is_about c.listing c.borrower) cs ≡ false)
    × ((c.lender == c.borrower) ≡ false)
    × AreApart cs

find-none : (p : Conversation → Bool) (cs : List Conversation) → find p cs ≡ none → any p cs ≡ false
find-none p [] h = refl
find-none p (c ∷ cs) h = ground (arith, find-none p cs)

guarded :
    (test : Bool) (cs : List Conversation) (e : StartError) (r : Run)
    → AreApart cs
    → (test ≡ false → AreApart r.0)
    → AreApart (if test then (cs, err e) else r).0
guarded true cs e r h h' = h
guarded false cs e r h h' = h' refl

start_with-AreApart :
    (cs : List Conversation) (blocks : List Block) (within : Bool) (id borrower listing : ℕ)
    (o : Option Listing)
    → AreApart cs
    → any (is_about listing borrower) cs ≡ false
    → AreApart (start_with cs blocks within id borrower listing o).0
start_with-AreApart cs blocks within id borrower listing none h fresh = h
start_with-AreApart cs blocks within id borrower listing (some l) h fresh =
    guarded (l.lender == borrower) cs own_listing _ h (λ other.
      guarded (is_blocked blocks borrower l.lender) cs user_blocked _ h
        (λ free. guarded (not within) cs too_many _ h (λ in_limit. (fresh, other, h))))

start-AreApart :
    (cs : List Conversation) (ls : Listings) (active : ℕ → Bool) (blocks : List Block)
    (verified within : Bool) (id borrower listing : ℕ)
    → AreApart cs
    → AreApart (start cs ls active blocks verified within id borrower listing).0
unfolding start
start-AreApart cs ls active blocks verified within id borrower listing h =
    guarded (not verified) cs not_verified _ h (λ known.
      elim (Option-cases (find (is_about listing borrower) cs)) [
        | inl missing ↦ rw missing (
            start_with-AreApart cs blocks within id borrower listing (public_get ls active listing)
              h (find-none (is_about listing borrower) cs missing))
        | inr (c, found) ↦ rw found h
      ])

either :
    {A : Type 0} (o : Option A) (f : A → Run) (r : Run)
    → ((a : A) → AreApart (f a).0)
    → (o ≡ none → AreApart r.0)
    → AreApart (elim o as (λ x. Run) [ some a ↦ f a | none ↦ r ]).0
either none f r h h' = h' refl
either (some a) f r h h' = h a

found_or_new-AreApart :
    (cs : List Conversation) (id lender borrower listing : ℕ)
    → AreApart cs
    → (lender == borrower) ≡ false
    → AreApart (found_or_new cs id lender borrower listing).0
found_or_new-AreApart cs id lender borrower listing h other =
    either (find (is_about listing borrower) cs) (λ c. (cs, ok c.id))
      (new_chat id listing borrower lender ∷ cs, ok id) (λ c. h)
      (λ missing. (find-none (is_about listing borrower) cs missing, other, h))

open_for_lender-AreApart :
    (cs : List Conversation) (ls : Listings) (blocks : List Block) (id lender borrower listing : ℕ)
    → AreApart cs
    → AreApart (open_for_lender cs ls blocks id lender borrower listing).0
unfolding open_for_lender
open_for_lender-AreApart cs ls blocks id lender borrower listing h =
    either (find (is_live_of lender listing) ls) _ (cs, err no_listing)
      (λ l. guarded (lender == borrower) cs own_listing _ h (λ other.
        guarded (is_blocked blocks lender borrower) cs user_blocked _ h
          (λ free. found_or_new-AreApart cs id lender borrower listing h other)))
      (λ missing. h)

-- What comes of no chats.
pub data StartReach : List Conversation → Type 0 where
  none_yet : StartReach []
  starts :
      {cs : List Conversation} (ls : Listings) (active : ℕ → Bool) (blocks : List Block)
      (verified within : Bool) (id borrower listing : ℕ)
      → StartReach cs
      → StartReach (start cs ls active blocks verified within id borrower listing).0
  opens :
      {cs : List Conversation} (ls : Listings) (blocks : List Block)
      (id lender borrower listing : ℕ)
      → StartReach cs
      → StartReach (open_for_lender cs ls blocks id lender borrower listing).0

-- Whoever starts chats, borrowers about a listing or lenders with an answer to a request: there is at
-- most one chat about a listing with a borrower, and nobody has one with themselves.
pub reach-AreApart : {cs : List Conversation} → StartReach cs → AreApart cs
reach-AreApart none_yet = tt
reach-AreApart (starts {cs = cs} ls active blocks verified within id borrower listing r) =
    start-AreApart cs ls active blocks verified within id borrower listing (reach-AreApart r)
reach-AreApart (opens {cs = cs} ls blocks id lender borrower listing r) =
    open_for_lender-AreApart cs ls blocks id lender borrower listing (reach-AreApart r)
