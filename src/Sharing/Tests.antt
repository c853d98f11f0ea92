-- ===== src/Sharing/Tests.antt =====
-- A booking that waits for one document.
use nivra.Prelude.{◌+◌, ◌≡◌, refl, true, false, none, some, List, [], ◌∷◌, ◌++◌, find, arith, All}
use nivra.Prelude.Int.{pos, ◌+ℤ◌}
use nivra.Bookings.Status.{awaiting_docs, cancelled, is_open}
use nivra.Bookings.Rules.{next_status}
use nivra.Bookings.Policy.{Windows, RequiredDocType, DocumentType}
use nivra.Machine.Rows.{Booking, Share, ShareStatus}
use nivra.Rentals.Handover.{party_for, is_borrower}
use nivra.Sharing.Documents.{
  RequiredDoc, Choice, VaultDocument, verified, Copies, Shared, submit, choices_match,
}
use nivra.Sharing.Opening.{front, has_share_id, is_after, key_of, view_url, purge_closed}
use nivra.Sharing.Picked.{Answers, submit-Answers}
use nivra.Sharing.Access.{view_url-logged, HasNoFiles, purge_closed-HasNoFiles}

abbrev windows : Windows
windows = record { request_min = 60; docs_min = 60; payment_min = 30 }

abbrev booking : Booking
booking = record {
  id = 7;
  borrower = 1;
  lender = 2;
  status = awaiting_docs;
  required_docs = 1;
  starts_on = pos 864000000;
  ends_on = pos 950400000;
  handed_over_at = none;
  returned_at = none;
  completed_at = none;
  expires_at = none;
  closed_at = none;
  credit = 0;
  deposit = 50000;
  late_days = 0;
  late_fee = 0;
  kept = 0;
  cancelled_by = none;
}

abbrev waiting : Shared
waiting = record {
  world = record { booking = booking; shares = []; events = []; credits = [] };
  views = [];
}

abbrev required : List RequiredDoc
required = record { id = 4; doc_type = RequiredDocType.government_id } ∷ []

abbrev vault : List VaultDocument
vault =
    record {
      id = 8;
      user = 1;
      type = DocumentType.passport;
      status = verified;
      front_key = 80;
      back_key = none;
      expires_on = none;
      is_deleted = false;
    }
    ∷ []

abbrev copies : Copies
copies = record { stored = true; new_id = λ r. r; copy_of = λ k. k + 1000 }

abbrev choices : List Choice
choices = record { required = 4; document = 8 } ∷ []

submit-Answers_example :
    let s' = (submit windows waiting required vault 1 choices copies (pos 0) (pos 5)).0 in
    (new : List Share) × Answers vault 1 choices (pos 0) required new
    × (s'.world.shares ≡ new ++ [])
    × (is_borrower (party_for booking 1) ≡ true)
    × (choices_match required choices ≡ true)
    × (s'.world.booking.status ≡ awaiting_docs)
unfolding submit next_status
submit-Answers_example =
    submit-Answers windows waiting required vault 1 choices copies (pos 0) (pos 5) refl

abbrev passport : Share
passport = record {
  id = 4;
  required = 4;
  document = 8;
  verified = true;
  front_key = some 1080;
  back_key = none;
  status = ShareStatus.submitted;
  access_expires_at = none;
  purged_at = none;
}

abbrev shared : Shared
shared = record waiting { world = record waiting.world { shares = passport ∷ [] } }

view_url-logged_example :
    (booking.lender ≡ 2)
    × (is_open awaiting_docs ≡ true)
    × ((x : Share) × (find (has_share_id 4) shared.world.shares ≡ some x)
        × (x.purged_at ≡ none)
        × (is_after x.access_expires_at (pos 9) ≡ true)
        × (key_of front x ≡ some 1080))
    × ((view_url shared 4 front 2 (pos 9)).0
        ≡ record shared { views = record { share = 4; viewer = 2 } ∷ [] })
unfolding view_url
view_url-logged_example = view_url-logged shared 4 front 2 (pos 9) 1080 refl

abbrev over : Shared
over = record shared {
  world = record shared.world {
    booking = record booking { status = cancelled; closed_at = some (pos 0) };
  };
}

swept_clean : All HasNoFiles (purge_closed 30 over (pos 2592000000)).world.shares
unfolding ◌+ℤ◌
swept_clean =
    purge_closed-HasNoFiles 30 over (pos 2592000000) (pos 0) ((λ h. absurd (ground arith)), tt) refl
      (omega arith) refl
