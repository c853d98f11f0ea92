-- ===== src/Messages/Retried.antt =====
-- A message that is sent again is not stored again.
use nivra.Prelude.{
  ℕ, ◌≡◌, refl, Bool, true, false, not, ◌&&◌, none, some, List, ◌∷◌, find, Result, ok, err, ◌==◌,
  if◌then◌else◌, arith, inl, inr, Bool-cases, Option-cases,
}
use nivra.Time.{Instant}
use nivra.Messages.Blocks.{Block, is_blocked}
use nivra.Messages.Sending.{
  Content, typed, uploaded, create, stored, is_blank, send_content, send_new, send, text_message,
  image_message,
}
use nivra.Messages.Rows.{
  Masking, Chat, Message, View, SendError, empty_body, user_blocked, too_many, takes_part,
  other_party, is_retry_of, shown, touch, preview_of,
}

create-new :
    (c : Chat) (m : Message) (client : ℕ)
    → find (is_retry_of m.sender client) c.messages ≡ none
    → create c m client ≡ (record c { messages = m ∷ c.messages }, m)
unfolding create
create-new c m client h = rw (h, create) refl

pub stored-new :
    (k : Masking) (c : Chat) (client : ℕ) (m : Message)
    → find (is_retry_of m.sender client) c.messages ≡ none
    → stored k c client m ≡ (
      touch (record c { messages = m ∷ c.messages }) (preview_of k m) m.created_at,
      ok (shown m m.sender false),
    )
unfolding stored
stored-new k c client m h = rw (create-new c m client h) refl

create-old :
    (c : Chat) (m old : Message) (client : ℕ)
    → find (is_retry_of m.sender client) c.messages ≡ some old
    → create c m client ≡ (c, old)
unfolding create
create-old c m old client h = rw (h, create) refl

pub stored-old :
    (k : Masking) (c : Chat) (client : ℕ) (m old : Message)
    → find (is_retry_of m.sender client) c.messages ≡ some old
    → stored k c client m
      ≡ (touch c (preview_of k old) old.created_at, ok (shown old m.sender false))
unfolding stored
stored-old k c client m old h = rw (create-old c m old client h) refl

-- Once it is stored, a retry finds it.
Found : ℕ → ℕ → Chat × Result SendError View → Type 0
Found sender client (c, r) =
    (m : Message) × (find (is_retry_of sender client) c.messages ≡ some m)
    × (takes_part c sender ≡ true)
    × (r ≡ ok (shown m sender false))

again :
    (k : Masking) (c : Chat) (blocks : List Block) (revealed within : Bool) (id sender client : ℕ)
    (x : Content) (now : Instant) (r : Result SendError View)
    → Found sender client (c, r)
    → send k c blocks revealed within id sender client x now ≡ (c, r)
unfolding send Found
again k c blocks revealed within id sender client x now r (m, found, mine, same) =
    rw (mine, found, same) refl

stored-Found :
    (k : Masking) (c : Chat) (client : ℕ) (m : Message)
    → find (is_retry_of m.sender client) c.messages ≡ none
    → takes_part c m.sender ≡ true
    → is_retry_of m.sender client m ≡ true
    → Found m.sender client (stored k c client m)
unfolding Found touch
stored-Found k c client m fresh mine own =
    rw (stored-new k c client m fresh, own) (m, refl, mine, refl)

guard-ok :
    (test : Bool) (c : Chat) (e : SendError) (r : Chat × Result SendError View) {v : View}
    → (if test then (c, err e) else r).1 ≡ ok v
    → (test ≡ false) × ((if test then (c, err e) else r) ≡ r)
guard-ok true c e r h = absurd (ground arith)
guard-ok false c e r h = (refl, refl)

same_client : (a b : ℕ) → (a == a && b == b) ≡ true
same_client a b = ground arith

send_content-Found :
    (k : Masking) (c : Chat) (revealed : Bool) (id sender client : ℕ) (x : Content) (now : Instant)
    {v : View}
    → find (is_retry_of sender client) c.messages ≡ none
    → takes_part c sender ≡ true
    → (send_content k c revealed id sender client x now).1 ≡ ok v
    → Found sender client (send_content k c revealed id sender client x now)
send_content-Found k c revealed id sender client (typed t) now fresh mine h =
    stored-Found k c client (text_message k revealed id sender client (k.trim t) now) fresh mine
      (same_client sender client)
send_content-Found k c revealed id sender client (uploaded none) now fresh mine h =
    absurd (ground arith)
send_content-Found k c revealed id sender client (uploaded (some key)) now fresh mine h =
    stored-Found k c client (image_message id sender client key now) fresh mine
      (same_client sender client)

send_new-Found :
    (k : Masking) (c : Chat) (blocks : List Block) (revealed within : Bool) (id sender client : ℕ)
    (x : Content) (now : Instant) {v : View}
    → find (is_retry_of sender client) c.messages ≡ none
    → takes_part c sender ≡ true
    → (send_new k c blocks revealed within id sender client x now).1 ≡ ok v
    → Found sender client (send_new k c blocks revealed within id sender client x now)
send_new-Found k c blocks revealed within id sender client x now fresh mine h =
    let r₁ = send_content k c revealed id sender client x now in
    let r₂ = if not within then (c, err too_many) else r₁ in
    let blocked = is_blocked blocks sender (other_party c sender) in
    let r₃ = if blocked then (c, err user_blocked) else r₂ in
    let (written, e₃) = guard-ok (is_blank k x) c empty_body r₃ h in
    let (free, e₂) = guard-ok blocked c user_blocked r₂ (rw e₃ at h) in
    let (in_limit, e₁) = guard-ok (not within) c too_many r₁ (rw (e₃, e₂) at h) in
    rw (e₃, e₂, e₁)
      (send_content-Found k c revealed id sender client x now fresh mine (rw (e₃, e₂, e₁) at h))

send-Found :
    (k : Masking) (c : Chat) (blocks : List Block) (revealed within : Bool) (id sender client : ℕ)
    (x : Content) (now : Instant) {v : View}
    → (send k c blocks revealed within id sender client x now).1 ≡ ok v
    → Found sender client (send k c blocks revealed within id sender client x now)
unfolding send Found
send-Found k c blocks revealed within id sender client x now h =
    elim (Bool-cases (takes_part c sender)) [
      | inr stranger ↦ absurd (ground arith)
      | inl mine ↦ elim (Option-cases (find (is_retry_of sender client) c.messages)) [
        | inr (old, found) ↦ rw (mine, found) (old, found, mine, refl)
        | inl missing ↦
            rw (mine, missing)
              (send_new-Found k c blocks revealed within id sender client x now missing mine
                (rw (mine, missing, send) at h))
      ]
    ]

-- Sending again under the client id of a message that was sent changes nothing and answers as the
-- first time, whatever is sent, whoever was blocked meanwhile and whatever limit was reached.
pub send-again :
    (k : Masking) (c : Chat) (blocks later : List Block) (revealed revealed' within within' : Bool)
    (id id' sender client : ℕ) (x y : Content) (now now' : Instant) (v : View)
    → (send k c blocks revealed within id sender client x now).1 ≡ ok v
    → let c' = (send k c blocks revealed within id sender client x now).0 in
      send k c' later revealed' within' id' sender client y now' ≡ (c', ok v)
send-again k c blocks later revealed revealed' within within' id id' sender client x y now now' v
      h =
    let s = send k c blocks revealed within id sender client x now in
    rw (← h) (
      again k s.0 later revealed' within' id' sender client y now' s.1
        (send-Found k c blocks revealed within id sender client x now h))
