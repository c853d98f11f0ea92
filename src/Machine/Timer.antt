-- ===== src/Machine/Timer.antt =====
-- The timers of a booking: `expireIfDue`, called by the delayed job or by the sweep.
use nivra.Prelude.{true, false, ◌≡◌, refl, ◌⊎◌, inl, inr, some, ◌∷◌, ok, arith}
use nivra.Prelude.Int.{◌≤ℤ◌, leb_ℤ, leb_ℤ-of_le}
use nivra.Time.{Instant}
use nivra.Bookings.Status.{
  Status, is_open, is, includes, returned, completed, expired, expire, complete, system,
}
use nivra.Bookings.Rules.{next_status}
use nivra.Bookings.Policy.{Windows}
use nivra.Machine.Rows.{World, state_of}
use nivra.Machine.Transition.{
  transition_row, write, expire_if_due, is_due, expirable, done_at, no_patch, complete_options,
  expire_options,
}
use nivra.Machine.Outcome.{transition_row-ok}

waiting_cases :
    (s : Status)
    → includes (returned ∷ expirable) s ≡ true
    → (s ≡ returned) ⊎ ((includes expirable s ≡ true) × (is s returned ≡ false))
waiting_cases s h = ground arith

may_complete :
    (w : Windows) (d : World) (now clock deadline : Instant)
    → d.booking.expires_at ≡ some deadline
    → leb_ℤ deadline now ≡ true
    → d.booking.status ≡ returned
    → (complete_options now).only_if d.booking ≡ true
may_complete w d now clock deadline timed due back = ground arith

completing :
    (d : World) (now : Instant)
    → d.booking.status ≡ returned
    → next_status complete system (state_of d.booking d.shares) now ≡ some completed
unfolding next_status
completing d now back = ground arith

may_expire :
    (w : Windows) (d : World) (now clock deadline : Instant)
    → d.booking.expires_at ≡ some deadline
    → leb_ℤ deadline now ≡ true
    → includes expirable d.booking.status ≡ true
    → (expire_options now).only_if d.booking ≡ true
may_expire w d now clock deadline timed due waits = ground arith

expiring :
    (d : World) (now : Instant)
    → includes expirable d.booking.status ≡ true
    → next_status expire system (state_of d.booking d.shares) now ≡ some expired
unfolding next_status
expiring d now waits = ground arith

timer_returned :
    (w : Windows) (d d' : World) (now clock : Instant)
    → is d.booking.status returned ≡ true
    → transition_row w d complete system (complete_options now) clock ≡ ok (some d')
    → expire_if_due w d now clock ≡ ok (true, d')
unfolding expire_if_due
timer_returned w d d' now clock back done = cc

timer_other :
    (w : Windows) (d d' : World) (now clock : Instant)
    → is d.booking.status returned ≡ false
    → transition_row w d expire system (expire_options now) clock ≡ ok (some d')
    → expire_if_due w d now clock ≡ ok (true, d')
unfolding expire_if_due
timer_other w d d' now clock other done = cc

completes :
    (w : Windows) (d : World) (now clock deadline : Instant)
    → d.booking.expires_at ≡ some deadline
    → leb_ℤ deadline now ≡ true
    → d.booking.status ≡ returned
    → expire_if_due w d now clock
      ≡ ok (true, write w d complete system (done_at now) clock completed d.shares)
completes w d now clock deadline timed due back =
    timer_returned w d (write w d complete system (done_at now) clock completed d.shares) now clock
      (ground arith)
      (transition_row-ok w d complete system (complete_options now) clock
        (may_complete w d now clock deadline timed due back) (completing d clock back) refl)

expires :
    (w : Windows) (d : World) (now clock deadline : Instant)
    → d.booking.expires_at ≡ some deadline
    → leb_ℤ deadline now ≡ true
    → includes expirable d.booking.status ≡ true
    → is d.booking.status returned ≡ false
    → expire_if_due w d now clock
      ≡ ok (true, write w d expire system no_patch clock expired d.shares)
expires w d now clock deadline timed due waits other =
    timer_other w d (write w d expire system no_patch clock expired d.shares) now clock other (
      transition_row-ok w d expire system (expire_options now) clock
        (may_expire w d now clock deadline timed due waits) (expiring d clock waits) refl)

-- A booking that waits for a reply, for documents or for payment, or that waits in its claim window
-- after the return, is closed by its timer at or after its deadline, whatever the time that the
-- machine then reads: it expires, or it completes if it was returned.
pub expire_if_due-due :
    (w : Windows) (d : World) (now clock deadline : Instant)
    → d.booking.expires_at ≡ some deadline
    → deadline ≤ℤ now
    → includes (returned ∷ expirable) d.booking.status ≡ true
    → (d' : World) × (expire_if_due w d now clock ≡ ok (true, d'))
      × (is_open d'.booking.status ≡ false)
      × (d'.booking.status ≡ completed ⊎ d'.booking.status ≡ expired)
unfolding write is_open
expire_if_due-due w d now clock deadline timed late waits =
    let due : leb_ℤ deadline now ≡ true = leb_ℤ-of_le deadline now late in
    elim (waiting_cases d.booking.status waits) [
      | inl back ↦ (
        write w d complete system (done_at now) clock completed d.shares,
        completes w d now clock deadline timed due back,
        refl,
        inl refl,
      )
      | inr (lapsing, other) ↦ (
        write w d expire system no_patch clock expired d.shares,
        expires w d now clock deadline timed due lapsing other,
        refl,
        inr refl,
      )
    ]

-- Before its deadline, or without one, or in any other status, the timer changes nothing.
expire_if_due-early :
    (w : Windows) (d : World) (now clock : Instant)
    → ((includes (returned ∷ expirable) d.booking.status ≡ false)
        ⊎ (is_due d.booking.expires_at now ≡ false))
    → expire_if_due w d now clock ≡ ok (false, d)
unfolding expire_if_due transition_row
expire_if_due-early w d now clock early = grind arith
