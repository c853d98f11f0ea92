-- ===== src/Messages/Chats.antt =====
-- `start` and `openForLender` of ConversationsService, over the table of chats. Whether the borrower's
-- phone and email are verified, which lenders are active, the limit and new ids are arguments.
use nivra.Prelude.{
  ℕ, Bool, not, ◌&&◌, Option, none, some, List, ◌∷◌, find, Result, ok, err, ◌==◌, if◌then◌else◌,
}
use nivra.Listings.Rows.{Listing, Listings, is_live}
use nivra.Listings.Review.{public_get}
use nivra.Messages.Blocks.{Block, is_blocked}

pub record Conversation : Type 0 where
  pub id : ℕ
  pub listing : ℕ
  pub borrower : ℕ
  pub lender : ℕ

pub data StartError : Type 0 where
  not_verified no_listing own_listing user_blocked too_many : StartError

abbrev pub Run : Type 0
Run = List Conversation × Result StartError ℕ

-- The unique index on listing and borrower.
abbrev pub is_about : ℕ → ℕ → Conversation → Bool
is_about listing borrower c = c.listing == listing && c.borrower == borrower

abbrev pub new_chat : ℕ → ℕ → ℕ → ℕ → Conversation
new_chat id listing borrower lender = record {
  id = id;
  listing = listing;
  borrower = borrower;
  lender = lender;
}

abbrev pub start_with : List Conversation → List Block → Bool → ℕ → ℕ → ℕ → Option Listing → Run
start_with cs blocks within_limit id borrower listing none = (cs, err no_listing)
start_with cs blocks within_limit id borrower listing (some l) =
    if l.lender == borrower
    then (cs, err own_listing)
    else if is_blocked blocks borrower l.lender
    then (cs, err user_blocked)
    else if not within_limit
    then (cs, err too_many)
    else (new_chat id listing borrower l.lender ∷ cs, ok id)

unfoldable pub start :
    List Conversation → Listings → (ℕ → Bool) → List Block → Bool → Bool → ℕ → ℕ → ℕ → Run
unfolding is_blocked public_get
start cs ls active blocks verified within_limit id borrower listing =
    if not verified then (cs, err not_verified) else elim (find (is_about listing borrower) cs) [
      | some c ↦ (cs, ok c.id)
      | none ↦ start_with cs blocks within_limit id borrower listing (public_get ls active listing)
    ]

abbrev pub is_live_of : ℕ → ℕ → Listing → Bool
is_live_of lender listing l = l.id == listing && l.lender == lender && is_live l.status

abbrev pub found_or_new : List Conversation → ℕ → ℕ → ℕ → ℕ → Run
found_or_new cs id lender borrower listing = elim (find (is_about listing borrower) cs) [
  | some c ↦ (cs, ok c.id)
  | none ↦ (new_chat id listing borrower lender ∷ cs, ok id)
]

-- `openForLender`: how a lender answers a request.
unfoldable pub open_for_lender : List Conversation → Listings → List Block → ℕ → ℕ → ℕ → ℕ → Run
unfolding is_blocked
open_for_lender cs ls blocks id lender borrower listing =
    elim (find (is_live_of lender listing) ls) [
      | none ↦ (cs, err no_listing)
      | some l ↦
          if lender == borrower
          then (cs, err own_listing)
          else if is_blocked blocks lender borrower
          then (cs, err user_blocked)
          else found_or_new cs id lender borrower listing
    ]
