-- ===== src/Messages/Tests.antt =====
-- A chat in which a number is sent, and sent again.
use nivra.Prelude.{◌≡◌, refl, true, false, none, some, [], ◌∷◌, ok, err, All}
use nivra.Prelude.Int.{pos}
use nivra.Messages.Blocks.{block, unblock, is_blocked}
use nivra.Messages.Sending.{typed, uploaded, send, send_text, mark_read, post_line, unread}
use nivra.Messages.Rows.{Text, Masking, Chat, Message, system, View, user_blocked}
use nivra.Messages.Retried.{send-again}
use nivra.Messages.Masked.{
  opened, sends, answers, reads, posts, IsSafePreview, IsMaskedFor, reach-IsMaskedFor,
}
use nivra.Listings.Rows.{live, Listing}
use nivra.Messages.Chats.{start, open_for_lender}
use nivra.Messages.Started.{AreApart, none_yet, starts, opens, reach-AreApart}

-- Every text is a secret.
abbrev masking : Masking
masking = record { text = λ t. 42 ∷ []; masked = λ t. true; trim = λ t. t; photo = 7 ∷ [] }

abbrev empty : Chat
empty = record { borrower = 1; lender = 2; messages = []; last_message_at = pos 0; preview = none }

abbrev number : Text
number = 57 ∷ 56 ∷ []

abbrev asked : Chat
unfolding send
asked = (send masking empty [] false true 10 1 5 (typed number) (pos 1)).0

abbrev own_view : View
own_view = record { id = 10; is_mine = true; body = some number; is_masked = true; client = some 5 }

send-again_example :
    let c' = (send masking empty [] false true 10 1 5 (typed number) (pos 1)).0 in
    send masking c'
      (record { blocker = 2; blocked = 1 } ∷ [])
      false
      false
      11
      1
      5
      (uploaded none)
      (pos 2)
    ≡ (c', ok own_view)
unfolding send
send-again_example =
    send-again masking empty [] (record { blocker = 2; blocked = 1 } ∷ []) false false true false 10
      11 1 5 (typed number) (uploaded none) (pos 1) (pos 2) own_view refl

abbrev note : Message
note = record {
  id = 12;
  sender = 1;
  kind = system;
  body = some (90 ∷ []);
  masked_body = none;
  masked = false;
  image_key = none;
  client = none;
  read_at = none;
  created_at = pos 5;
}

reach-IsMaskedFor_example :
    let c = (send_text masking asked false 11 2 6 number (pos 3)).0 in
    let d = post_line (mark_read c 1 11 (pos 4)).0 note (90 ∷ []) in
    IsSafePreview masking ((90 ∷ []) ∷ []) d.messages d.preview
    × All (IsMaskedFor masking 1) d.messages
unfolding send
reach-IsMaskedFor_example = reach-IsMaskedFor 1 (
    posts note (90 ∷ []) refl refl (
      reads 1 11 (pos 4) (
        answers 11 2 6 number (pos 3)
          (sends [] true 10 1 5 (typed number) (pos 1) (opened 1 2 (pos 0))))))

blocked_stops :
    (send masking empty (block [] 2 1 true).0 false true 10 1 5 (typed number) (pos 1)).1
    ≡ err user_blocked
unfolding send block
blocked_stops = refl

unblocked : is_blocked (unblock (block [] 2 1 true).0 2 1) 1 2 ≡ false
unfolding is_blocked unblock block
unblocked = refl

one_unread : unread asked 2 ≡ 1
unfolding unread send
one_unread = refl

abbrev drill : Listing
drill = record {
  id = 30;
  lender = 2;
  category = 4;
  status = live;
  min_days = 1;
  max_days = 30;
  lat = some 5;
  lng = some 6;
  area_label = some 8;
  approved_at = none;
  photos = [];
  blocks = [];
  required_docs = [];
}

reach-AreApart_example :
    let cs = (start [] (drill ∷ []) (λ u. true) [] true true 70 1 30).0 in
    AreApart (open_for_lender cs (drill ∷ []) [] 71 2 1 30).0
unfolding start
reach-AreApart_example = reach-AreApart (
    opens (drill ∷ []) [] 71 2 1 30 (starts (drill ∷ []) (λ u. true) [] true true 70 1 30 none_yet))

same_chat :
    let cs = (start [] (drill ∷ []) (λ u. true) [] true true 70 1 30).0 in
    (open_for_lender cs (drill ∷ []) [] 71 2 1 30).1 ≡ ok 70
unfolding start open_for_lender
same_chat = refl
