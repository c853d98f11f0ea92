-- ===== src/Requests/Reached.antt =====
-- The board over any sequence of calls.
use nivra.Prelude.{ℕ, ◌≤◌, [], arith}
use nivra.Prelude.Int.{◌≤ℤ◌}
use nivra.Time.{Instant}
use nivra.Requests.Board.{
  Store, NewRequest, Answer, open_count, create, close, expire_due, admin_remove, respond,
}
use nivra.Requests.Limits.{
  IsOnce, Limited, create-Limited, close-Limited, respond-Limited, expire_due-Limited,
  remove-Limited, open_count-later,
}

-- The calls on the board at an instant.
pub data BoardStep (now : Instant) (s : Store) : Store → Type 0 where
  creates : (user : ℕ) (n : NewRequest) → BoardStep now s (create s user n now).0
  closes : (user id : ℕ) → BoardStep now s (close s user id).0
  responds : (lender id : ℕ) (a : Answer) → BoardStep now s (respond s lender id a now).0
  expires : BoardStep now s (expire_due s now)
  removes : (id : ℕ) → BoardStep now s (admin_remove s id).0

BoardStep-Limited :
    {now : Instant} {s t : Store} → BoardStep now s t → Limited now s → Limited now t
BoardStep-Limited {now = now} {s = s} (creates user n) h = create-Limited s user n now h
BoardStep-Limited {now = now} {s = s} (closes user id) h = close-Limited s user id now h
BoardStep-Limited {now = now} {s = s} (responds lender id a) h = respond-Limited s lender id a now h
BoardStep-Limited {now = now} {s = s} expires h = expire_due-Limited s now h
BoardStep-Limited {now = now} {s = s} (removes id) h = remove-Limited s id now h

-- Calls one after the other, the clock not going back.
pub data BoardReach : Instant → Store → Type 0 where
  start : (now : Instant) → BoardReach now (record { requests = []; responses = [] })
  more :
      {then_at now : Instant} {s t : Store}
      → BoardReach then_at s
      → then_at ≤ℤ now
      → BoardStep now s t
      → BoardReach now t

BoardReach-Limited : {now : Instant} {s : Store} → BoardReach now s → Limited now s
unfolding open_count IsOnce
BoardReach-Limited (start now) = record { few_open = λ v. omega arith; once = tt }
BoardReach-Limited (more {then_at = t} {now = now} {s = s} r after st) =
    let h = BoardReach-Limited r in
    BoardStep-Limited st (record {
      few_open = λ v. omega (arith, open_count-later v t now s.requests after, h.few_open v);
      once = h.once;
    })

-- Whatever requests are posted, closed, answered, expired and removed, at instants that do not go
-- back: at any instant from the last call on nobody has more than five open requests, and no listing
-- was offered twice for the same request.
pub reach-few_open :
    {now : Instant} {s : Store} (later : Instant) (user : ℕ)
    → BoardReach now s
    → now ≤ℤ later
    → (open_count user later s.requests ≤ 5) × IsOnce s.responses
reach-few_open {now = now} {s = s} later user r after =
    let h = BoardReach-Limited r in
    (omega (arith, open_count-later user now later s.requests after, h.few_open user), h.once)
