-- ===== src/Requests/Board.antt =====
-- `RequestsService` and request-rules.ts, over the tables of requests and of responses, the latest
-- first. Whether the person is verified, the category is active, the limiter lets them, their listing
-- is live, and who is blocked are arguments; texts, distances and notifications are left out.
use nivra.Prelude.{
  ℕ, ◌*◌, Bool, true, false, not, ◌&&◌, ◌||◌, Option, none, some, List, ◌∷◌, map, any, find, filter,
  length, Result, ok, err, leb, ◌==◌, if◌then◌else◌,
}
use nivra.Prelude.Int.{pos, ◌+ℤ◌, ltb_ℤ, leb_ℤ}
use nivra.Time.{Instant, day_ms, add_days}

pub data RequestStatus : Type 0 where
  open_now closed expired removed : RequestStatus

pub record ItemRequest : Type 0 where
  pub id : ℕ
  pub borrower : ℕ
  pub status : RequestStatus
  pub start_date : Option Instant
  pub end_date : Option Instant
  pub expires_at : Instant

pub record Response : Type 0 where
  pub request : ℕ
  pub lender : ℕ
  pub listing : ℕ

pub record Store : Type 0 where
  pub requests : List ItemRequest
  pub responses : List Response

pub data RequestError : Type 0 where
  not_verified bad_category request_limit rate_limited not_found own_request not_open : RequestError
  no_listing already_answered dates_together starts_in_past ends_first too_far : RequestError

abbrev pub max_open : ℕ
max_open = 5

abbrev pub max_days : ℕ
max_days = 30

abbrev pub max_ahead_days : ℕ
max_ahead_days = 365

-- The day after the end date, or 30 days.
unfoldable pub request_expires_at : Instant → Option Instant → Instant
request_expires_at now none = now +ℤ pos (max_days * day_ms)
request_expires_at now (some end) =
    let cap = now +ℤ pos (max_days * day_ms) in
    let day_after = end +ℤ pos day_ms in if ltb_ℤ day_after cap then day_after else cap

abbrev is_open_status : RequestStatus → Bool
is_open_status open_now = true
is_open_status s = false

abbrev is_removed : RequestStatus → Bool
is_removed removed = true
is_removed s = false

-- `isOpen`.
abbrev pub is_open_at : Instant → ItemRequest → Bool
is_open_at now r = is_open_status r.status && ltb_ℤ now r.expires_at

-- Optional dates: both or neither, from today, the end not before the start, within a year.
unfoldable pub check_dates :
    Option Instant
    → Option Instant
    → Instant
    → Result RequestError (Option Instant × Option Instant)
unfolding add_days
check_dates none none today = ok (none, none)
check_dates (some start) none today = err dates_together
check_dates none (some end) today = err dates_together
check_dates (some start) (some end) today =
    if ltb_ℤ start today
    then err starts_in_past
    else if ltb_ℤ end start
    then err ends_first
    else if ltb_ℤ (add_days today max_ahead_days) end
    then err too_far
    else ok (some start, some end)

-- The person's open requests.
abbrev pub is_open_of : ℕ → Instant → ItemRequest → Bool
is_open_of user now r = r.borrower == user && is_open_at now r

unfoldable pub open_count : ℕ → Instant → List ItemRequest → ℕ
open_count user now rs = length (filter (is_open_of user now) rs)

pub record NewRequest : Type 0 where
  pub id : ℕ
  pub start_date : Option Instant
  pub end_date : Option Instant
  pub today : Instant
  pub verified : Bool
  pub category_ok : Bool
  pub within_limit : Bool

abbrev pub row_of : ℕ → ℕ → Option Instant → Option Instant → Instant → ItemRequest
row_of id user start end expires = record {
  id = id;
  borrower = user;
  status = open_now;
  start_date = start;
  end_date = end;
  expires_at = expires;
}

abbrev pub put_requests : Store → List ItemRequest → Store
put_requests s rs = record s { requests = rs }

-- The rest of `create`, once the dates are checked.
unfoldable pub create_dated :
    Store
    → ℕ
    → NewRequest
    → Instant
    → Result RequestError (Option Instant × Option Instant)
    → Store × Result RequestError ℕ
unfolding open_count request_expires_at
create_dated s user n now (err e) = (s, err e)
create_dated s user n now (ok (start, end)) =
    if leb max_open (open_count user now s.requests)
    then (s, err request_limit)
    else if not n.within_limit
    then (s, err rate_limited)
    else (
      put_requests s (row_of n.id user start end (request_expires_at now end) ∷ s.requests),
      ok n.id,
    )

unfoldable pub create : Store → ℕ → NewRequest → Instant → Store × Result RequestError ℕ
unfolding create_dated check_dates
create s user n now =
    if not n.verified
    then (s, err not_verified)
    else if not n.category_ok
    then (s, err bad_category)
    else create_dated s user n now (check_dates n.start_date n.end_date n.today)

abbrev pub has_id : ℕ → ItemRequest → Bool
has_id id r = r.id == id

-- `update where id`, of a row whose status meets the test.
abbrev pub set_if : (ItemRequest → Bool) → RequestStatus → ItemRequest → ItemRequest
set_if p to r = if p r then record r { status = to } else r

unfoldable pub set_where :
    (ItemRequest → Bool) → RequestStatus → List ItemRequest → List ItemRequest
set_where p to rs = map (set_if p to) rs

abbrev pub is_open_row : ℕ → ItemRequest → Bool
is_open_row id r = has_id id r && is_open_status r.status

unfoldable pub close : Store → ℕ → ℕ → Store × Result RequestError ℕ
unfolding set_where
close s user id = elim (find (has_id id) s.requests) [
  | none ↦ (s, err not_found)
  | some r ↦
      if not (r.borrower == user)
      then (s, err not_found)
      else (put_requests s (set_where (is_open_row id) closed s.requests), ok id)
]

-- `expireDue`.
abbrev pub is_due : Instant → ItemRequest → Bool
is_due now r = is_open_status r.status && leb_ℤ r.expires_at now

unfoldable pub expire_due : Store → Instant → Store
unfolding set_where
expire_due s now = put_requests s (set_where (is_due now) expired s.requests)

abbrev pub is_kept_row : ℕ → ItemRequest → Bool
is_kept_row id r = has_id id r && not (is_removed r.status)

-- `adminRemove`.
unfoldable pub admin_remove : Store → ℕ → Store × Result RequestError ℕ
unfolding set_where
admin_remove s id = elim (find (has_id id) s.requests) [
  | none ↦ (s, err not_found)
  | some r ↦ (put_requests s (set_where (is_kept_row id) removed s.requests), ok id)
]

pub record Answer : Type 0 where
  pub listing : ℕ
  pub verified : Bool
  pub borrower_active : Bool
  pub listing_live : Bool
  pub within_limit : Bool

abbrev pub is_answer : ℕ → ℕ → Response → Bool
is_answer request listing p = p.request == request && p.listing == listing

-- `respond`, to a request that was found: the response is recorded after the chat was opened.
unfoldable pub respond_found :
    Store → ItemRequest → ℕ → Answer → Instant → Store × Result RequestError ℕ
respond_found s r lender a now =
    if not a.borrower_active
    then (s, err not_found)
    else if r.borrower == lender
    then (s, err own_request)
    else if not (is_open_at now r)
    then (s, err not_open)
    else if not a.listing_live
    then (s, err no_listing)
    else if any (is_answer r.id a.listing) s.responses
    then (s, err already_answered)
    else if not a.within_limit
    then (s, err rate_limited)
    else (
      record s {
        responses = record { request = r.id; lender = lender; listing = a.listing } ∷ s.responses;
      },
      ok r.id,
    )

unfoldable pub respond : Store → ℕ → ℕ → Answer → Instant → Store × Result RequestError ℕ
unfolding respond_found
respond s lender id a now =
    if not a.verified then (s, err not_verified) else elim (find (has_id id) s.requests) [
      | none ↦ (s, err not_found)
      | some r ↦ respond_found s r lender a now
    ]

-- `get`: the responses that the viewer may see; `none` is the error that the request was not found.
abbrev pub shown_to : ℕ → ItemRequest → Response → Bool
shown_to viewer r p = p.request == r.id && (r.borrower == viewer || p.lender == viewer)

unfoldable pub get : Store → ℕ → ℕ → Bool → Bool → Instant → Option (List Response)
get s viewer id borrower_active blocked now = elim (find (has_id id) s.requests) [
  | none ↦ none
  | some r ↦
      if not (r.borrower == viewer) && (not (is_open_at now r) || not borrower_active || blocked)
      then none
      else some (filter (shown_to viewer r) s.responses)
]
