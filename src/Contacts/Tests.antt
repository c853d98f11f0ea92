-- ===== src/Contacts/Tests.antt =====
-- Runs of digits, with and without a phone number.
use nivra.Prelude.{ℕ, ◌≡◌, refl, true, List, [], ◌∷◌, any}
use nivra.Contacts.Masking.{Group, groups_at, is_phone, spans, mask_phones_in_run}
use nivra.Contacts.Hidden.{covers, phone-covered}

-- `+98765 43210`
hides_mobile :
    mask_phones_in_run (43 ∷ 57 ∷ 56 ∷ 55 ∷ 54 ∷ 53 ∷ 32 ∷ 52 ∷ 51 ∷ 50 ∷ 49 ∷ 48 ∷ [])
    ≡ 8226 ∷ 8226 ∷ 8226 ∷ []
unfolding mask_phones_in_run
hides_mobile = refl

-- `411 001`
keeps_pin :
    mask_phones_in_run (52 ∷ 49 ∷ 49 ∷ 32 ∷ 48 ∷ 48 ∷ 49 ∷ [])
    ≡ 52 ∷ 49 ∷ 49 ∷ 32 ∷ 48 ∷ 48 ∷ 49 ∷ []
unfolding mask_phones_in_run
keeps_pin = refl

abbrev first_half : Group
first_half = record { start = 3; stop = 8; digits = 57 ∷ 56 ∷ 55 ∷ 54 ∷ 53 ∷ [] }

abbrev second_half : Group
second_half = record { start = 9; stop = 14; digits = 52 ∷ 51 ∷ 50 ∷ 49 ∷ 48 ∷ [] }

-- `12 98765-43210`
abbrev in_text : List ℕ
in_text = 49 ∷ 50 ∷ 32 ∷ 57 ∷ 56 ∷ 55 ∷ 54 ∷ 53 ∷ 45 ∷ 52 ∷ 51 ∷ 50 ∷ 49 ∷ 48 ∷ []

phone-covered_example : any (covers first_half) (spans in_text) ≡ true
unfolding groups_at is_phone
phone-covered_example =
    phone-covered in_text (record { start = 0; stop = 2; digits = 49 ∷ 50 ∷ [] } ∷ []) first_half
      (second_half ∷ []) [] refl refl
