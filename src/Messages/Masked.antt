-- ===== src/Messages/Masked.antt =====
-- What the other person is shown while no booking of the chat was paid.
use nivra.Prelude.{
  ℕ, ◌≡◌, ◌⊎◌, refl, inl, inr, Bool, true, false, not, ◌&&◌, Option, none, some, List, [], ◌∷◌, map,
  find, find-All, find-meets, Result, err, All, leb, ◌==◌, if◌then◌else◌, arith, Bool-cases,
  Option-cases,
}
use nivra.Time.{Instant}
use nivra.Messages.Blocks.{Block, is_blocked}
use nivra.Messages.Retried.{stored-new, stored-old}
use nivra.Messages.Sending.{
  Content, typed, uploaded, is_unread_by, post, post_line, stored, is_blank, send_content, send_new,
  send, send_text, text_message, image_message, read_row, mark_read,
}
use nivra.Messages.Rows.{
  Text, Masking, Chat, Message, text, image, View, SendError, not_found, empty_body, user_blocked,
  too_many, takes_part, other_party, is_text, is_retry_of, shown, touch, take, preview_of,
}

-- A text that was masked, or a picture.
abbrev Sent : Masking → Message → Type 0
Sent k m =
    (m.kind ≡ image)
    ⊎ ((t : Text) × (m.kind ≡ text) × (m.body ≡ some t) × (m.masked_body ≡ some (k.text t)))

-- The text is the body of one of the messages.
abbrev pub IsBodyOf : Text → List Message → Type 0
IsBodyOf t [] = ⊥
IsBodyOf t (m ∷ ms) = (m.body ≡ some t) ⊎ IsBodyOf t ms

-- The text is one of the lines.
abbrev pub IsLineOf : Text → List Text → Type 0
IsLineOf t [] = ⊥
IsLineOf t (x ∷ xs) = (t ≡ x) ⊎ IsLineOf t xs

-- A message that was sent so, or a line of another flow, which has no client id.
abbrev Clean : Masking → Message → Type 0
Clean k m = ((is_text m.kind ≡ false) × (m.client ≡ none)) ⊎ Sent k m

-- A preview is nothing, a picture's, or the start of a line or of the masked text of a message.
abbrev pub IsSafePreview : Masking → List Text → List Message → Option Text → Type 0
IsSafePreview k lines ms p =
    (p ≡ none)
    ⊎ ((p ≡ some (take 200 k.photo))
        ⊎ (((t : Text) × IsLineOf t lines × (p ≡ some (take 200 t)))
            ⊎ ((t : Text) × IsBodyOf t ms × (p ≡ some (take 200 (k.text t))))))

abbrev IsMasked : Masking → List Text → Chat → Type 0
IsMasked k lines c = IsSafePreview k lines c.messages c.preview × All (Clean k) c.messages

-- The body of a message that is found.
found_body :
    (p : Message → Bool) (ms : List Message) (m : Message) (t : Text)
    → find p ms ≡ some m
    → m.body ≡ some t
    → IsBodyOf t ms
found_body p [] m t found e = absurd (ground arith)
found_body p (x ∷ xs) m t found e = elim (Bool-cases (p x)) [
  | inl here ↦
      (let same : some x ≡ some m = rw here at found in
        let body : x.body ≡ some t = ground arith in inl body)
  | inr other ↦ inr (found_body p xs m t (rw other at found) e)
]

preview_of-IsSafePreview :
    (k : Masking) (lines : List Text) (ms : List Message) (m : Message)
    → ((t : Text) → m.body ≡ some t → IsBodyOf t ms)
    → Sent k m
    → IsSafePreview k lines ms (some (take 200 (preview_of k m)))
unfolding preview_of
preview_of-IsSafePreview k lines ms m among (inl picture) = rw picture (inr (inl refl))
preview_of-IsSafePreview k lines ms m among (inr (t, typed_text, body, hidden)) =
    rw (typed_text, hidden) (inr (inr (inr (t, among t body, refl))))

retried :
    (k : Masking) (sender client : ℕ) (m : Message)
    → is_retry_of sender client m ≡ true
    → Clean k m
    → Sent k m
retried k sender client m h (inl (other, no_client)) = absurd (ground arith)
retried k sender client m h (inr sent) = sent

stored-IsMasked :
    (k : Masking) (lines : List Text) (c : Chat) (client : ℕ) (m : Message)
    → Sent k m
    → IsMasked k lines c
    → IsMasked k lines (stored k c client m).0
unfolding touch
stored-IsMasked k lines c client m sent (safe, clean) =
    elim (Option-cases (find (is_retry_of m.sender client) c.messages)) [
      | inl missing ↦ rw (stored-new k c client m missing) (
        preview_of-IsSafePreview k lines (m ∷ c.messages) m (λ t e. inl e) sent,
        (inr sent, clean),
      )
      | inr (old, found) ↦
          (let is_old = find-meets (is_retry_of m.sender client) c.messages {x = old} found in
            let was =
              find-All (is_retry_of m.sender client) (Clean k) c.messages {x = old} found clean in
            rw (stored-old k c client m old found) (
              preview_of-IsSafePreview k lines c.messages old
                  (λ t e. found_body (is_retry_of m.sender client) c.messages old t found e)
                  (retried k m.sender client old is_old was),
              clean,
            ))
    ]

text_message-Sent :
    (k : Masking) (id sender client : ℕ) (body : Text) (now : Instant)
    → Sent k (text_message k false id sender client body now)
text_message-Sent k id sender client body now = inr (body, refl, refl, refl)

send_content-IsMasked :
    (k : Masking) (lines : List Text) (c : Chat) (id sender client : ℕ) (x : Content)
    (now : Instant)
    → IsMasked k lines c
    → IsMasked k lines (send_content k c false id sender client x now).0
send_content-IsMasked k lines c id sender client (typed t) now h =
    stored-IsMasked k lines c client (text_message k false id sender client (k.trim t) now)
      (text_message-Sent k id sender client (k.trim t) now) h
send_content-IsMasked k lines c id sender client (uploaded none) now h = h
send_content-IsMasked k lines c id sender client (uploaded (some key)) now h =
    stored-IsMasked k lines c client (image_message id sender client key now) (inl refl) h

guarded :
    (k : Masking) (lines : List Text) (test : Bool) (c : Chat) (e : SendError)
    (r : Chat × Result SendError View)
    → IsMasked k lines c
    → IsMasked k lines r.0
    → IsMasked k lines (if test then (c, err e) else r).0
guarded k lines true c e r h h' = h
guarded k lines false c e r h h' = h'

send-IsMasked :
    (k : Masking) (lines : List Text) (c : Chat) (blocks : List Block) (within : Bool)
    (id sender client : ℕ) (x : Content) (now : Instant)
    → IsMasked k lines c
    → IsMasked k lines (send k c blocks false within id sender client x now).0
unfolding send
send-IsMasked k lines c blocks within id sender client x now h =
    let r₁ = send_content k c false id sender client x now in
    let r₂ = if not within then (c, err too_many) else r₁ in
    let r₃ =
      if is_blocked blocks sender (other_party c sender) then (c, err user_blocked) else r₂ in
    let new : IsMasked k lines (send_new k c blocks false within id sender client x now).0 =
      guarded k lines (is_blank k x) c empty_body r₃ h (
        guarded k lines (is_blocked blocks sender (other_party c sender)) c user_blocked r₂ h (
          guarded k lines (not within) c too_many r₁ h
            (send_content-IsMasked k lines c id sender client x now h))) in
    elim (Bool-cases (takes_part c sender)) [
      | inr stranger ↦ rw stranger h
      | inl mine ↦ elim (Option-cases (find (is_retry_of sender client) c.messages)) [
        | inr (old, found) ↦ rw (mine, found, send) h
        | inl missing ↦ rw (mine, missing, send) new
      ]
    ]

send_text-IsMasked :
    (k : Masking) (lines : List Text) (c : Chat) (id sender client : ℕ) (body : Text)
    (now : Instant)
    → IsMasked k lines c
    → IsMasked k lines (send_text k c false id sender client body now).0
unfolding send_text
send_text-IsMasked k lines c id sender client body now h =
    let m = text_message k false id sender client body now in
    guarded k lines (not (takes_part c sender)) c not_found (stored k c client m) h
      (stored-IsMasked k lines c client m (text_message-Sent k id sender client body now) h)

read_rows-Clean :
    (k : Masking) (reader up_to : ℕ) (now : Instant) (ms : List Message)
    → All (Clean k) ms
    → All (Clean k) (map (read_row reader up_to now) ms)
read_rows-Clean k reader up_to now [] h = tt
read_rows-Clean k reader up_to now (m ∷ ms) (clean, rest) = (
  elim (Bool-cases (is_unread_by reader m && leb m.id up_to)) [
    | inl unread ↦ rw unread clean
    | inr other ↦ rw other clean
  ],
  read_rows-Clean k reader up_to now ms rest,
)

read_rows-IsBodyOf :
    (reader up_to : ℕ) (now : Instant) (t : Text) (ms : List Message)
    → IsBodyOf t ms
    → IsBodyOf t (map (read_row reader up_to now) ms)
read_rows-IsBodyOf reader up_to now t [] h = h
read_rows-IsBodyOf reader up_to now t (m ∷ ms) (inr later) =
    inr (read_rows-IsBodyOf reader up_to now t ms later)
read_rows-IsBodyOf reader up_to now t (m ∷ ms) (inl here) =
    elim (Bool-cases (is_unread_by reader m && leb m.id up_to)) [
      | inl unread ↦ rw unread (inl here)
      | inr other ↦ rw other (inl here)
    ]

read_rows-IsSafePreview :
    (k : Masking) (lines : List Text) (reader up_to : ℕ) (now : Instant) (ms : List Message)
    (p : Option Text)
    → IsSafePreview k lines ms p
    → IsSafePreview k lines (map (read_row reader up_to now) ms) p
read_rows-IsSafePreview k lines reader up_to now ms p (inl e) = inl e
read_rows-IsSafePreview k lines reader up_to now ms p (inr (inl e)) = inr (inl e)
read_rows-IsSafePreview k lines reader up_to now ms p (inr (inr (inl line))) = inr (inr (inl line))
read_rows-IsSafePreview k lines reader up_to now ms p (inr (inr (inr (t, body, e)))) =
    inr (inr (inr (t, read_rows-IsBodyOf reader up_to now t ms body, e)))

mark_read-IsMasked :
    (k : Masking) (lines : List Text) (c : Chat) (reader up_to : ℕ) (now : Instant)
    → IsMasked k lines c
    → IsMasked k lines (mark_read c reader up_to now).0
unfolding mark_read
mark_read-IsMasked k lines c reader up_to now (safe, clean) =
    elim (Bool-cases (takes_part c reader)) [
      | inl mine ↦ rw mine (
        read_rows-IsSafePreview k lines reader up_to now c.messages c.preview safe,
        read_rows-Clean k reader up_to now c.messages clean,
      )
      | inr stranger ↦ rw stranger (safe, clean)
    ]

-- What comes of a new chat while none of its bookings is paid, with the lines that other flows posted
-- (offers, and what the service says).
pub data UnpaidReach (k : Masking) : List Text → Chat → Type 0 where
  opened :
      (borrower lender : ℕ) (now : Instant)
      → UnpaidReach k [] (record {
        borrower = borrower;
        lender = lender;
        messages = [];
        last_message_at = now;
        preview = none;
      })
  sends :
      {lines : List Text} {c : Chat} (blocks : List Block) (within : Bool) (id sender client : ℕ)
      (x : Content) (now : Instant)
      → UnpaidReach k lines c
      → UnpaidReach k lines (send k c blocks false within id sender client x now).0
  answers :
      {lines : List Text} {c : Chat} (id sender client : ℕ) (body : Text) (now : Instant)
      → UnpaidReach k lines c
      → UnpaidReach k lines (send_text k c false id sender client body now).0
  reads :
      {lines : List Text} {c : Chat} (reader up_to : ℕ) (now : Instant)
      → UnpaidReach k lines c
      → UnpaidReach k lines (mark_read c reader up_to now).0
  posts :
      {lines : List Text} {c : Chat} (m : Message) (line : Text)
      → is_text m.kind ≡ false
      → m.client ≡ none
      → UnpaidReach k lines c
      → UnpaidReach k (line ∷ lines) (post_line c m line)

reach-IsMasked :
    {k : Masking} {lines : List Text} {c : Chat} → UnpaidReach k lines c → IsMasked k lines c
unfolding post_line post touch
reach-IsMasked (opened b l now) = (inl refl, tt)
reach-IsMasked {k = k} (sends {lines = lines} {c = c} blocks within id sender client x now r) =
    send-IsMasked k lines c blocks within id sender client x now (reach-IsMasked r)
reach-IsMasked {k = k} (answers {lines = lines} {c = c} id sender client body now r) =
    send_text-IsMasked k lines c id sender client body now (reach-IsMasked r)
reach-IsMasked {k = k} (reads {lines = lines} {c = c} reader up_to now r) =
    mark_read-IsMasked k lines c reader up_to now (reach-IsMasked r)
reach-IsMasked (posts m line other no_client r) =
    let (safe, clean) = reach-IsMasked r in
    (inr (inr (inl (line, inl refl, refl))), (inl (other, no_client), clean))

-- What a viewer is shown of a message: their own, no text, or the text it holds, masked.
abbrev pub IsMaskedFor : Masking → ℕ → Message → Type 0
IsMaskedFor k viewer m =
    ((m.sender == viewer) ≡ true)
    ⊎ ((is_text m.kind ≡ false)
        ⊎ ((t : Text) × (m.body ≡ some t) × ((shown m viewer false).body ≡ some (k.text t))))

view-IsMaskedFor : (k : Masking) (viewer : ℕ) (m : Message) → Clean k m → IsMaskedFor k viewer m
unfolding shown
view-IsMaskedFor k viewer m (inl (other, no_client)) = inr (inl other)
view-IsMaskedFor k viewer m (inr (inl picture)) = inr (inl (rw picture refl))
view-IsMaskedFor k viewer m (inr (inr (t, typed_text, body, hidden))) =
    elim (Bool-cases (m.sender == viewer)) [
      | inl mine ↦ inl mine
      | inr theirs ↦ inr (inr (t, body, rw (typed_text, theirs) hidden))
    ]

views-IsMaskedFor :
    (k : Masking) (viewer : ℕ) (ms : List Message)
    → All (Clean k) ms
    → All (IsMaskedFor k viewer) ms
views-IsMaskedFor k viewer [] h = tt
views-IsMaskedFor k viewer (m ∷ ms) (clean, rest) =
    (view-IsMaskedFor k viewer m clean, views-IsMaskedFor k viewer ms rest)

-- While no booking of a chat is paid, whatever is sent, answered, read and posted: of each text of the
-- other a person is shown only what masking leaves of it, and the preview in the inbox is nothing, a
-- picture's, or the start of a line that another flow posted or of the masked text of a message of the
-- chat.
pub reach-IsMaskedFor :
    {k : Masking} {lines : List Text} {c : Chat} (viewer : ℕ)
    → UnpaidReach k lines c
    → IsSafePreview k lines c.messages c.preview × All (IsMaskedFor k viewer) c.messages
reach-IsMaskedFor {k = k} {c = c} viewer r =
    let (safe, clean) = reach-IsMasked r in (safe, views-IsMaskedFor k viewer c.messages clean)
