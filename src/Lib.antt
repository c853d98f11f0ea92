-- ===== src/Lib.antt =====
-- Nivra: a marketplace for renting things between neighbours. This library models the core of its
-- API (apps/api/src/modules): the rules of a booking and of the rental, the money that moves with it,
-- referral credit, listings and their prices, documents that are shared for a booking, offers and
-- messages in a chat, requests for items, reviews, one-time passwords and sessions.
--
-- A booking is requested, accepted, paid, handed over, returned and completed; each of its changes
-- goes through one state machine, which asks the booking rules for the next status, writes the rows
-- and notifies people. A listener of the payments service then moves the money: it pays the lender when
-- a booking was paid, refunds one that was cancelled, and settles a rental that is over. Payments,
-- refunds and transfers post to a double-entry ledger. Credit is held when a booking is made and
-- given back when it closes unpaid.
--
--   Prelude, Prelude/*   shared notation: Boolean tests, lists, integers, results.
--   Time                 instants, rental days and windows (bookings/booking-rules.ts,
--                        listings/listing-rules.ts).
--   Bookings/*           bookings/booking-rules.ts: Status and Rules (nextStatus, allowedActions),
--                        Policy (deadlines, late fees, refunds, documents); Diagram, Timing and
--                        Refunding prove.
--   Machine/*            bookings/booking-state-machine.ts (transition, notify) and expireIfDue of
--                        bookings/bookings.service.ts: Rows, Transition and Notices model; Outcome,
--                        Invariant, Timer, Ending and Told prove.
--   Rounding             commissionOn and the fee: a share in basis points, rounded.
--   Ledger/*             payments/ledger.ts (Postings) and payments/ledger.service.ts (Writer);
--                        Balanced, Flow and Summary prove.
--   Refunds/*            payments/refunds.service.ts: Rows and Service model; Bounds, Sending and
--                        Starting prove.
--   Payouts/*            payouts/payouts.service.ts: Transfers models one transfer, Booking the transfers
--                        of a booking; Lifecycle, Sent and Cancelled prove.
--   Payments/*           payments/payments.service.ts and accountChanged of payouts/payouts.service.ts:
--                        Rows (what is kept of one booking), Cancelling (refundCancelled, settle,
--                        onBookingChanged), Capture (checkout, capture, webhooks), Verifying
--                        (verify) and Preview (cancelPreview) model; Confirming, Once, Settling,
--                        Settled and Cancelled prove.
--   Rentals/*            rentals/handover.service.ts (Handover) and rentals/disputes.service.ts
--                        (Disputes); Within, Kept, Lockout and Proof prove.
--   Chat/*               chat/offers.service.ts and chat/offer-rules.ts: Offers models the offers of a
--                        chat; Open and Deals prove.
--   Messages/*           chat/messages.service.ts and the message view of chat/chat-presenter.ts
--                        (Rows, Sending), start and openForLender of chat/conversations.service.ts
--                        (Chats), safety/blocks.service.ts (Blocks); Retried, Masked and Started
--                        prove.
--   Contacts/*           the phone numbers of chat/masking.ts: Masking models; Grouped and Hidden
--                        prove.
--   Reviews/*            rentals/reviews.service.ts: Blind models; Published proves.
--   Requests/*           requests/requests.service.ts and requests/request-rules.ts: Board models;
--                        Limits, Reached and Shown prove.
--   Listings/*           listings/listings.service.ts: Rows, Contents (photos, blocked dates, required
--                        documents), Lender (what lenders do) and Review (what admins do, and the
--                        public look-up) model; Sound, Moves, Reviewed and Photos prove.
--   Sharing/*            bookings/booking-documents.service.ts: Documents (submit, approve, reject) and
--                        Opening (viewUrl, purgeClosed) model; Picked and Access prove.
--   Acting/*             what people and the timers do in bookings/bookings.service.ts: Calls models
--                        (accept, decline, cancel, adminCancel, hasOpenBookings, expireDue); Promised
--                        and Swept prove.
--   Pricing/*            listings/pricing.ts: Quotes models; Availability and Amount prove.
--   Credits/*            referrals/credits.ts (Entries) and referrals/referrals.service.ts (Referrals);
--                        Balance, Release and Rewards prove.
--   Sessions/*           sessions/sessions.service.ts: Tokens models; Reuse proves.
--   Creation/*           request and createFromOffer of bookings/bookings.service.ts: Bookings models;
--                        Amounts proves.
--   Otp/*                otp/otp.service.ts: Challenges models; Guessing and Issuing prove.
--   RateLimiter/*        redis/rate-limiter.ts, which stands beside the modules: Windows models; Allowed
--                        proves.
--   */Tests              concrete inputs.
--
-- State is passed explicitly: a table is a list of rows, the latest first, a database transaction is
-- one step, and a thrown AppException is an error value. Amounts in paise that the database keeps at
-- zero or more are natural numbers; differences are integers, as JavaScript's integral numbers below
-- 2^53, which no amount here comes near. Instants are whole milliseconds. What the payment provider
-- answers, the clock, fresh ids and the rate limiter's answer are arguments, so the theorems hold for
-- every value of them. Ids and unique indexes are those of apps/api/prisma/schema.prisma. No loop
-- needs fuel: all recursion is on a list; the sweep of bookings takes at most 500 rows, as the source.
--
-- Not modelled: texts, e-mails, sockets and the job queue, which do not change state; of the payments
-- service the sweep and the development checkout; refunds by an admin and the set-up of payout
-- accounts; the inbox, and the regular expressions that mask links, addresses and spelled numbers; the
-- averages of reviews; search and the vault of documents; the web, admin and mobile apps, which call
-- the API.
pub mod Prelude
pub mod Time
pub mod Bookings
pub mod Rounding
pub mod Ledger
pub mod Pricing
pub mod Credits
pub mod Machine
pub mod Refunds
pub mod Payouts
pub mod Payments
pub mod Rentals
pub mod Sessions
pub mod Messages
pub mod Otp
pub mod Chat
pub mod Reviews
pub mod Requests
pub mod Listings
pub mod Sharing
pub mod Acting
pub mod Contacts
pub mod Creation
pub mod RateLimiter
