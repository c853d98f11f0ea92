-- ===== src/Sharing/Opening.antt =====
-- `viewUrl` and `purgeClosed` of BookingDocumentsService: who opens a shared document, and when its
-- files are deleted.
use nivra.Prelude.{
  ℕ, ◌*◌, Bool, true, false, not, ◌&&◌, Option, none, some, ◌∷◌, map, find, Result, ok, err, ◌==◌,
  if◌then◌else◌,
}
use nivra.Prelude.Int.{pos, ◌+ℤ◌, ltb_ℤ, leb_ℤ}
use nivra.Time.{Instant, day_ms}
use nivra.Bookings.Status.{includes, disputed, is, document_access_statuses}
use nivra.Machine.Rows.{Booking, Share}
use nivra.Rentals.Handover.{party_for, is_none}
use nivra.Sharing.Documents.{Shared, SharingError, access_ended, not_allowed, not_found}

abbrev pub has_share_id : ℕ → Share → Bool
has_share_id id x = x.id == id

abbrev pub is_after : Option Instant → Instant → Bool
is_after none now = true
is_after (some d) now = ltb_ℤ now d

-- Whether the lender may still open a shared document.
unfoldable pub is_viewable : Booking → Share → Instant → Bool
is_viewable b x now =
    includes document_access_statuses b.status
    && elim x.purged_at [ none ↦ true | some d ↦ false ]
    && is_after x.access_expires_at now

pub data Side : Type 0 where
  front back : Side

abbrev pub key_of : Side → Share → Option ℕ
key_of front x = x.front_key
key_of back x = x.back_key

abbrev pub opened : Shared → Share → ℕ → Option ℕ → Shared × Result SharingError ℕ
opened s x user none = (s, err not_found)
opened s x user (some key) =
    (record s { views = record { share = x.id; viewer = user } ∷ s.views }, ok key)

abbrev pub view_found : Shared → Share → Side → ℕ → Instant → Shared × Result SharingError ℕ
view_found s x side user now =
    let who = party_for s.world.booking user in
    if is_none who
    then (s, err not_found)
    else if not (s.world.booking.lender == user)
    then (s, err not_allowed)
    else if not (is_viewable s.world.booking x now)
    then (s, err access_ended)
    else opened s x user (key_of side x)

-- `viewUrl`: the key that the link is made for.
unfoldable pub view_url : Shared → ℕ → Side → ℕ → Instant → Shared × Result SharingError ℕ
unfolding party_for is_viewable
view_url s id side user now = elim (find (has_share_id id) s.world.shares) [
  | none ↦ (s, err not_found)
  | some x ↦ view_found s x side user now
]

-- `purgeClosed`, of one booking.
abbrev pub purged : Instant → Share → Share
purged now x = elim x.purged_at [
  | none ↦ record x { purged_at = some now; front_key = none; back_key = none }
  | some d ↦ x
]

abbrev pub closed_before : Booking → ℕ → Instant → Bool
closed_before b retention now = elim b.closed_at [
  | none ↦ false
  | some d ↦ leb_ℤ (d +ℤ pos (retention * day_ms)) now
]

unfoldable pub purge_closed : ℕ → Shared → Instant → Shared
purge_closed retention s now =
    if closed_before s.world.booking retention now && not (is s.world.booking.status disputed)
    then record s { world = record s.world { shares = map (purged now) s.world.shares } }
    else s
