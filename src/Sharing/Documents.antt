-- ===== src/Sharing/Documents.antt =====
-- `BookingDocumentsService`: a booking's rows with the log of who opened a shared document. The
-- listing's required documents, the vault, the ids of new rows, whether the files could be copied and
-- the key of a copy are arguments.
use nivra.Prelude.{
  ℕ, Bool, true, false, not, ◌&&◌, Option, none, some, List, [], ◌∷◌, ◌++◌, map, any, all, find,
  length, Result, ok, err, ◌==◌, if◌then◌else◌,
}
use nivra.Prelude.Int.{ltb_ℤ}
use nivra.Time.{Instant}
use nivra.Bookings.Status.{borrower, lender, party, Action, submit_docs, approve_docs, reject_docs}
use nivra.Bookings.Policy.{Windows, RequiredDocType, DocumentType, satisfies}
use nivra.Machine.Rows.{Share, ShareStatus, submitted, approved, rejected, World}
use nivra.Machine.Transition.{Options, no_patch, TransitionError, transition_row}
use nivra.Rentals.Handover.{party_for, is_borrower, is_lender, is_none, distinct}

pub record RequiredDoc : Type 0 where
  pub id : ℕ
  pub doc_type : RequiredDocType

pub record Choice : Type 0 where
  pub required : ℕ
  pub document : ℕ

pub data DocumentStatus : Type 0 where
  pending verified refused : DocumentStatus

pub record VaultDocument : Type 0 where
  pub id : ℕ
  pub user : ℕ
  pub type : DocumentType
  pub status : DocumentStatus
  pub front_key : ℕ
  pub back_key : Option ℕ
  pub expires_on : Option Instant
  pub is_deleted : Bool

pub data SharingError : Type 0 where
  not_found not_allowed choices_differ not_in_vault refused_document expired_document : SharingError
  wrong_type storage_failed access_ended : SharingError
  of_transition : TransitionError → SharingError

-- A row of `document_access_logs`.
pub record View : Type 0 where
  pub share : ℕ
  pub viewer : ℕ

pub record Shared : Type 0 where
  pub world : World
  pub views : List View

abbrev pub choice_required : Choice → ℕ
choice_required c = c.required

abbrev pub is_choice_for : RequiredDoc → Choice → Bool
is_choice_for r c = c.required == r.id

abbrev is_chosen : List Choice → RequiredDoc → Bool
is_chosen cs r = any (is_choice_for r) cs

abbrev is_asked : List RequiredDoc → Choice → Bool
is_asked rs c = any (λ r. r.id == c.required) rs

-- One choice for each document that the listing asks for, and no other.
unfoldable pub choices_match : List RequiredDoc → List Choice → Bool
unfolding distinct
choices_match rs cs =
    all (is_chosen cs) rs && all (is_asked rs) cs && distinct (map choice_required cs) == length cs

-- The document of a choice, in the borrower's vault.
abbrev pub is_own : ℕ → ℕ → VaultDocument → Bool
is_own user id v = v.id == id && v.user == user && not v.is_deleted

abbrev pub is_refused : DocumentStatus → Bool
is_refused refused = true
is_refused s = false

abbrev pub is_verified : DocumentStatus → Bool
is_verified verified = true
is_verified s = false

abbrev pub has_expired : Option Instant → Instant → Bool
has_expired none today = false
has_expired (some d) today = ltb_ℤ d today

abbrev pub checked : RequiredDoc → Instant → VaultDocument → Result SharingError VaultDocument
checked r today v =
    if is_refused v.status
    then err refused_document
    else if has_expired v.expires_on today
    then err expired_document
    else if not (satisfies r.doc_type v.type)
    then err wrong_type
    else ok v

unfoldable pub pick :
    List VaultDocument → ℕ → List Choice → Instant → RequiredDoc → Result SharingError VaultDocument
unfolding satisfies
pick vault user cs today r = elim (find (is_choice_for r) cs) [
  | none ↦ err not_in_vault
  | some c ↦ elim (find (is_own user c.document) vault) [
    | none ↦ err not_in_vault
    | some v ↦ checked r today v
  ]
]

-- What copying the files of a document makes.
pub record Copies : Type 0 where
  pub stored : Bool
  pub new_id : ℕ → ℕ
  pub copy_of : ℕ → ℕ

abbrev copied : Copies → Option ℕ → Option ℕ
copied k none = none
copied k (some key) = some (k.copy_of key)

abbrev pub share_of : Copies → RequiredDoc → VaultDocument → Share
share_of k r v = record {
  id = k.new_id r.id;
  required = r.id;
  document = v.id;
  verified = is_verified v.status;
  front_key = some (k.copy_of v.front_key);
  back_key = copied k v.back_key;
  status = submitted;
  access_expires_at = none;
  purged_at = none;
}

abbrev pub add_share : Share → Result SharingError (List Share) → Result SharingError (List Share)
add_share s (err e) = err e
add_share s (ok ss) = ok (s ∷ ss)

abbrev pub add_picked :
    Copies
    → RequiredDoc
    → Result SharingError VaultDocument
    → Result SharingError (List Share)
    → Result SharingError (List Share)
add_picked k r (err e) rest = err e
add_picked k r (ok v) rest = add_share (share_of k r v) rest

-- The rows of the documents, in the order of the listing's.
unfoldable pub pick_all :
    List VaultDocument
    → ℕ
    → List Choice
    → Instant
    → Copies
    → List RequiredDoc
    → Result SharingError (List Share)
unfolding pick
pick_all vault user cs today k [] = ok []
pick_all vault user cs today k (r ∷ rs) =
    let rest = pick_all vault user cs today k rs in add_picked k r (pick vault user cs today r) rest

abbrev pub Run : Type 0
Run = Shared × Result SharingError (Unit {0})

abbrev pub moved_to : Shared → Result TransitionError (Option World) → Run
moved_to s (err e) = (s, err (of_transition e))
moved_to s (ok none) = (s, ok tt)
moved_to s (ok (some d)) = (record s { world = d }, ok tt)

abbrev pub with_shares : (List Share → List Share) → Options
with_shares f = record { patch = no_patch; in_tx = λ shares. ok (f shares); only_if = λ b. true }

abbrev pub submitted_with :
    Windows → Shared → Copies → Instant → Result SharingError (List Share) → Run
submitted_with w s k now (err e) = (s, err e)
submitted_with w s k now (ok new) =
    if not k.stored
    then (s, err storage_failed)
    else moved_to s (
        transition_row w s.world submit_docs (party borrower) (with_shares (λ old. new ++ old)) now)

unfoldable pub submit :
    Windows
    → Shared
    → List RequiredDoc
    → List VaultDocument
    → ℕ
    → List Choice
    → Copies
    → Instant
    → Instant
    → Run
unfolding party_for choices_match pick_all transition_row
submit w s required vault user cs k today now =
    let who = party_for s.world.booking user in
    if is_none who
    then (s, err not_found)
    else if not (is_borrower who)
    then (s, err not_allowed)
    else if not (choices_match required cs)
    then (s, err choices_differ)
    else submitted_with w s k now (pick_all vault user cs today k required)

abbrev is_waiting : ShareStatus → Bool
is_waiting submitted = true
is_waiting s = false

-- `updateMany where status: 'SUBMITTED'`.
abbrev pub reviewed_as : ShareStatus → Share → Share
reviewed_as to s = if is_waiting s.status then record s { status = to } else s

abbrev pub review : Windows → Shared → ℕ → Action → ShareStatus → Instant → Run
unfolding party_for transition_row
review w s user a to now =
    let who = party_for s.world.booking user in
    if is_none who
    then (s, err not_found)
    else if not (is_lender who)
    then (s, err not_allowed)
    else moved_to s
        (transition_row w s.world a (party lender) (with_shares (map (reviewed_as to))) now)

unfoldable pub approve : Windows → Shared → ℕ → Instant → Run
unfolding party_for transition_row
approve w s user now = review w s user approve_docs approved now

unfoldable pub reject : Windows → Shared → ℕ → Instant → Run
unfolding party_for transition_row
reject w s user now = review w s user reject_docs rejected now
