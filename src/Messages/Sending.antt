-- ===== src/Messages/Sending.antt =====
-- `MessagesService` over one chat, and `unread` of ConversationsService. Masking and trimming, new ids,
-- the outcome of an upload, and whether a booking of the chat is paid, are arguments; what sockets and
-- pushes carry is left out.
use nivra.Messages.Rows.{
  Chat, Masking, Message, SendError, Text, View, empty_body, image, is_retry_of, not_found,
  other_party, preview_of, shown, takes_part, text, too_many, touch, upload_failed, user_blocked,
}
use nivra.Prelude.{
  ℕ, Bool, true, false, not, ◌&&◌, Option, none, some, List, [], ◌∷◌, map, find, filter, length,
  Result, ok, err, ltb, leb, ◌==◌, if◌then◌else◌,
}
use nivra.Time.{Instant}
use nivra.Messages.Blocks.{Block, is_blocked}

-- `create`: the row, or the one that is there.
unfoldable pub create : Chat → Message → ℕ → Chat × Message
create c m client = elim (find (is_retry_of m.sender client) c.messages) [
  | some old ↦ (c, old)
  | none ↦ (record c { messages = m ∷ c.messages }, m)
]

-- `post`: an offer or a line of the service.
unfoldable pub post : Chat → Message → Chat × Message
post c m = (record c { messages = m ∷ c.messages }, m)

-- What every caller of `post` does: the row, and its line as the preview.
unfoldable pub post_line : Chat → Message → Text → Chat
unfolding post touch
post_line c m line = let (c', row) = post c m in touch c' line row.created_at

-- A text, as it is stored.
abbrev pub text_message : Masking → Bool → ℕ → ℕ → ℕ → Text → Instant → Message
text_message k revealed id sender client body now = record {
  id = id;
  sender = sender;
  kind = text;
  body = some body;
  masked_body = some (if revealed then body else k.text body);
  masked = if revealed then false else k.masked body;
  image_key = none;
  client = some client;
  read_at = none;
  created_at = now;
}

abbrev pub image_message : ℕ → ℕ → ℕ → ℕ → Instant → Message
image_message id sender client key now = record {
  id = id;
  sender = sender;
  kind = image;
  body = none;
  masked_body = none;
  masked = false;
  image_key = some key;
  client = some client;
  read_at = none;
  created_at = now;
}

-- The end of `send`: the row, the preview, and what the sender is shown.
unfoldable pub stored : Masking → Chat → ℕ → Message → Chat × Result SendError View
unfolding create touch preview_of shown
stored k c client m =
    let (c', row) = create c m client in
    (touch c' (preview_of k row) row.created_at, ok (shown row m.sender false))

-- What is sent: a text, or an upload with the key of its picture, unless it cannot be read.
pub data Content : Type 0 where
  typed : Text → Content
  uploaded : Option ℕ → Content

abbrev is_empty : Text → Bool
is_empty [] = true
is_empty t = false

abbrev pub is_blank : Masking → Content → Bool
is_blank k (typed t) = is_empty (k.trim t)
is_blank k (uploaded key) = false

abbrev pub send_content :
    Masking → Chat → Bool → ℕ → ℕ → ℕ → Content → Instant → Chat × Result SendError View
send_content k c revealed id sender client (typed t) now =
    stored k c client (text_message k revealed id sender client (k.trim t) now)
send_content k c revealed id sender client (uploaded none) now = (c, err upload_failed)
send_content k c revealed id sender client (uploaded (some key)) now =
    stored k c client (image_message id sender client key now)

abbrev pub send_new :
    Masking
    → Chat
    → List Block
    → Bool
    → Bool
    → ℕ
    → ℕ
    → ℕ
    → Content
    → Instant
    → Chat × Result SendError View
send_new k c blocks revealed within_limit id sender client x now =
    if is_blank k x
    then (c, err empty_body)
    else if is_blocked blocks sender (other_party c sender)
    then (c, err user_blocked)
    else if not within_limit
    then (c, err too_many)
    else send_content k c revealed id sender client x now

-- `send`.
unfoldable pub send :
    Masking
    → Chat
    → List Block
    → Bool
    → Bool
    → ℕ
    → ℕ
    → ℕ
    → Content
    → Instant
    → Chat × Result SendError View
unfolding stored is_blocked shown
send k c blocks revealed within_limit id sender client x now =
    if not (takes_part c sender)
    then (c, err not_found)
    else elim (find (is_retry_of sender client) c.messages) [
      | some old ↦ (c, ok (shown old sender false))
      | none ↦ send_new k c blocks revealed within_limit id sender client x now
    ]

-- `sendText`: the caller has checked limits and blocks.
unfoldable pub send_text :
    Masking → Chat → Bool → ℕ → ℕ → ℕ → Text → Instant → Chat × Result SendError View
unfolding stored
send_text k c revealed id sender client body now =
    if not (takes_part c sender)
    then (c, err not_found)
    else stored k c client (text_message k revealed id sender client body now)

abbrev pub is_unread_by : ℕ → Message → Bool
is_unread_by user m = not (m.sender == user) && elim m.read_at [ none ↦ true | some at ↦ false ]

abbrev pub read_row : ℕ → ℕ → Instant → Message → Message
read_row reader up_to now m =
    if is_unread_by reader m && leb m.id up_to then record m { read_at = some now } else m

-- `markRead`.
unfoldable pub mark_read : Chat → ℕ → ℕ → Instant → Chat × Result SendError (Unit {0})
mark_read c reader up_to now =
    if not (takes_part c reader)
    then (c, err not_found)
    else (record c { messages = map (read_row reader up_to now) c.messages }, ok tt)

-- The messages of `unread`, of one chat.
unfoldable pub unread : Chat → ℕ → ℕ
unread c user = if takes_part c user then length (filter (is_unread_by user) c.messages) else 0

abbrev is_before : Option ℕ → Message → Bool
is_before none m = true
is_before (some id) m = ltb m.id id

abbrev pub shown_to : ℕ → Bool → Message → View
unfolding shown
shown_to viewer revealed m = shown m viewer revealed

-- `list`, the pages put together.
unfoldable pub list : Chat → ℕ → Bool → Option ℕ → Result SendError (List View)
unfolding shown
list c viewer revealed before =
    if not (takes_part c viewer)
    then err not_found
    else ok (map (shown_to viewer revealed) (filter (is_before before) c.messages))
