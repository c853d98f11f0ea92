-- ===== src/Requests/Limits.antt =====
-- Limits that hold on the board at any time.
use nivra.Prelude.{
  ℕ, ◌+◌, ◌≤◌, ◌≡◌, ◌⊎◌, refl, inl, inr, Bool, false, not, Option, List, [], ◌∷◌, any, find, Result,
  ok, err, arith, leb, ◌==◌, Bool-cases, Option-cases,
}
use nivra.Prelude.Int.{◌≤ℤ◌}
use nivra.Time.{Instant}
use nivra.Requests.Board.{
  closed, expired, removed, ItemRequest, Response, Store, RequestError, NewRequest, Answer,
  is_open_row, is_due, is_kept_row, open_count, set_where, row_of, put_requests, create,
  create_dated, check_dates, close, expire_due, admin_remove, respond, respond_found, max_open,
  request_expires_at, is_answer, has_id,
}

-- Time only closes requests.
pub open_count-later :
    (user : ℕ) (now later : Instant) (rs : List ItemRequest)
    → now ≤ℤ later
    → open_count user later rs ≤ open_count user now rs
unfolding open_count
open_count-later user now later [] h = omega arith
open_count-later user now later (r ∷ rs) h = ground (arith, open_count-later user now later rs h)

-- Closing rows opens none.
open_count-set_where :
    (user : ℕ) (now : Instant) (p : ItemRequest → Bool) (rs : List ItemRequest)
    → (open_count user now (set_where p closed rs) ≤ open_count user now rs)
      × (open_count user now (set_where p expired rs) ≤ open_count user now rs)
      × (open_count user now (set_where p removed rs) ≤ open_count user now rs)
unfolding open_count set_where
open_count-set_where user now p [] = (omega arith, omega arith, omega arith)
open_count-set_where user now p (r ∷ rs) =
    let (one, two, three) = open_count-set_where user now p rs in
    (ground (arith, one), ground (arith, two), ground (arith, three))

-- Nobody has more open requests than the limit, and a listing answers a request once.
unfoldable pub IsOnce : List Response → Type 0
IsOnce [] = Unit
IsOnce (p ∷ ps) = (any (is_answer p.request p.listing) ps ≡ false) × IsOnce ps

pub record Limited (now : Instant) (s : Store) : Type 0 where
  pub few_open : (user : ℕ) → open_count user now s.requests ≤ 5
  pub once : IsOnce s.responses

head_counted :
    (v : ℕ) (now : Instant) (r : ItemRequest) (rs : List ItemRequest)
    → open_count v now (r ∷ rs) ≤ 1 + open_count v now rs
unfolding open_count
head_counted v now r rs = ground arith

head_other :
    (v : ℕ) (now : Instant) (r : ItemRequest) (rs : List ItemRequest)
    → (r.borrower == v) ≡ false
    → open_count v now (r ∷ rs) ≡ open_count v now rs
unfolding open_count
head_other v now r rs h = rw h refl

-- One more request of a person who has fewer than the limit.
one_more :
    (v user : ℕ) (now : Instant) (r : ItemRequest) (rs : List ItemRequest)
    → r.borrower ≡ user
    → leb max_open (open_count user now rs) ≡ false
    → open_count v now rs ≤ 5
    → open_count v now (r ∷ rs) ≤ 5
one_more v user now r rs mine room few = elim (Bool-cases (r.borrower == v)) [
  | inl here ↦
      (let same : user ≡ v = ground arith in
        let left : leb max_open (open_count v now rs) ≡ false = rw same at room in
        ground (arith, left, head_counted v now r rs))
  | inr other ↦ rw (head_other v now r rs other) few
]

create_dated-Limited :
    (s : Store) (user : ℕ) (n : NewRequest) (now : Instant)
    (dates : Result RequestError (Option Instant × Option Instant))
    → Limited now s
    → Limited now (create_dated s user n now dates).0
unfolding create_dated
create_dated-Limited s user n now (err e) h = h
create_dated-Limited s user n now (ok (start, end)) h =
    elim (Bool-cases (leb max_open (open_count user now s.requests))) [
      | inl full ↦ rw full h
      | inr room ↦ elim (Bool-cases (not n.within_limit)) [
        | inl over ↦ rw (room, over) h
        | inr within ↦
            rw (room, within)
              (record {
                few_open = λ v.
                    one_more v user now (row_of n.id user start end (request_expires_at now end))
                      s.requests refl room (h.few_open v);
                once = h.once;
              })
      ]
    ]

pub create-Limited :
    (s : Store) (user : ℕ) (n : NewRequest) (now : Instant)
    → Limited now s
    → Limited now (create s user n now).0
unfolding create
create-Limited s user n now h = elim (Bool-cases (not n.verified)) [
  | inl refused ↦ rw refused h
  | inr known ↦ elim (Bool-cases (not n.category_ok)) [
    | inl bad ↦ rw (known, bad) h
    | inr good ↦
        rw (known, good)
          (create_dated-Limited s user n now (check_dates n.start_date n.end_date n.today) h)
  ]
]

-- Rows that are closed, expired or removed.
set-Limited :
    (now : Instant) (s : Store) (p : ItemRequest → Bool)
    → Limited now s
    → Limited now (put_requests s (set_where p closed s.requests))
      × Limited now (put_requests s (set_where p expired s.requests))
      × Limited now (put_requests s (set_where p removed s.requests))
set-Limited now s p h =
    let less = λ (v : ℕ). open_count-set_where v now p s.requests in
    (
      record { few_open = λ v. omega (arith, (less v).0, h.few_open v); once = h.once },
      record { few_open = λ v. omega (arith, (less v).1, h.few_open v); once = h.once },
      record { few_open = λ v. omega (arith, (less v).2, h.few_open v); once = h.once },
    )

pub close-Limited :
    (s : Store) (user id : ℕ) (now : Instant) → Limited now s → Limited now (close s user id).0
unfolding close
close-Limited s user id now h = elim (Option-cases (find (has_id id) s.requests)) [
  | inl missing ↦ rw (missing, close) h
  | inr (r, found) ↦
      rw (found, close)
        (elim (Bool-cases (not (r.borrower == user))) [
          | inl other ↦ rw other h
          | inr mine ↦ rw mine (set-Limited now s (is_open_row id) h).0
        ])
]

pub remove-Limited :
    (s : Store) (id : ℕ) (now : Instant) → Limited now s → Limited now (admin_remove s id).0
unfolding admin_remove
remove-Limited s id now h = elim (Option-cases (find (has_id id) s.requests)) [
  | inl missing ↦ rw (missing, admin_remove) h
  | inr (r, found) ↦ rw (found, admin_remove) (set-Limited now s (is_kept_row id) h).2
]

pub expire_due-Limited :
    (s : Store) (now : Instant) → Limited now s → Limited now (expire_due s now)
unfolding expire_due
expire_due-Limited s now h = (set-Limited now s (is_due now) h).1

-- What answering a request adds.
respond_found-cases :
    (s : Store) (r : ItemRequest) (lender : ℕ) (a : Answer) (now : Instant)
    → ((respond_found s r lender a now).0 ≡ s)
      ⊎ ((any (is_answer r.id a.listing) s.responses ≡ false)
          × ((respond_found s r lender a now).0 ≡ record s {
            responses =
                record { request = r.id; lender = lender; listing = a.listing } ∷ s.responses;
          }))
unfolding respond_found
respond_found-cases s r lender a now = ground arith

pub respond-Limited :
    (s : Store) (lender id : ℕ) (a : Answer) (now : Instant)
    → Limited now s
    → Limited now (respond s lender id a now).0
unfolding respond IsOnce
respond-Limited s lender id a now h = elim (Bool-cases (not a.verified)) [
  | inl refused ↦ rw refused h
  | inr known ↦ elim (Option-cases (find (has_id id) s.requests)) [
    | inl missing ↦ rw (known, missing, respond) h
    | inr (r, found) ↦
        rw (known, found, respond)
          (elim (respond_found-cases s r lender a now) [
            | inl same ↦ rw same h
            | inr (fresh, e) ↦ rw e (record { few_open = h.few_open; once = (fresh, h.once) })
          ])
  ]
]
