-- ===== src/Messages/Rows.antt =====
-- The rows of a chat, the message view of ChatPresenter, and `participants` and `touch` of
-- ConversationsService. A text is the list of its UTF-16 units.
use nivra.Prelude.{
  ℕ, zero, suc, Bool, true, false, ◌&&◌, ◌||◌, Option, none, some, List, [], ◌∷◌, ◌==◌,
  if◌then◌else◌,
}
use nivra.Time.{Instant}

abbrev pub Text : Type 0
Text = List ℕ

pub data MessageKind : Type 0 where
  text image offer system : MessageKind

pub record Message : Type 0 where
  pub id : ℕ
  pub sender : ℕ
  pub kind : MessageKind
  pub body : Option Text
  pub masked_body : Option Text
  pub masked : Bool
  pub image_key : Option ℕ
  pub client : Option ℕ
  pub read_at : Option Instant
  pub created_at : Instant

pub record Chat : Type 0 where
  pub borrower : ℕ
  pub lender : ℕ
  pub messages : List Message
  pub last_message_at : Instant
  pub preview : Option Text

pub data SendError : Type 0 where
  not_found empty_body user_blocked too_many : SendError
  upload_failed : SendError

-- What a person is shown of a message.
pub record View : Type 0 where
  pub id : ℕ
  pub is_mine : Bool
  pub body : Option Text
  pub is_masked : Bool
  pub client : Option ℕ

pub record Masking : Type 0 where
  pub text : Text → Text
  pub masked : Text → Bool
  pub trim : Text → Text
  pub photo : Text

abbrev pub is_text : MessageKind → Bool
is_text text = true
is_text k = false

-- `presenter.message`.
unfoldable pub shown : Message → ℕ → Bool → View
shown m viewer revealed =
    let mine = m.sender == viewer in
    record {
      id = m.id;
      is_mine = mine;
      body =
          if is_text m.kind then (if mine || revealed then m.body else m.masked_body) else m.body;
      is_masked = if revealed then false else m.masked;
      client = if mine then m.client else none;
    }

-- `participants`.
abbrev pub takes_part : Chat → ℕ → Bool
takes_part c user = c.borrower == user || c.lender == user

abbrev pub other_party : Chat → ℕ → ℕ
other_party c user = if c.borrower == user then c.lender else c.borrower

abbrev is_client : ℕ → Option ℕ → Bool
is_client k none = false
is_client k (some x) = x == k

-- The unique index on sender and client id.
abbrev pub is_retry_of : ℕ → ℕ → Message → Bool
is_retry_of sender client m = m.sender == sender && is_client client m.client

abbrev or_empty : Option Text → Text
or_empty none = []
or_empty (some t) = t

-- `previewOf`; the wording of an offer is left out.
unfoldable pub preview_of : Masking → Message → Text
preview_of k m = elim m.kind [
  | text ↦ or_empty m.masked_body
  | image ↦ k.photo
  | offer ↦ []
  | system ↦ or_empty m.body
]

unfoldable pub take : ℕ → Text → Text
take zero t = []
take (suc n) [] = []
take (suc n) (c ∷ t) = c ∷ take n t

unfoldable pub touch : Chat → Text → Instant → Chat
unfolding take
touch c preview at = record c { last_message_at = at; preview = some (take 200 preview) }
