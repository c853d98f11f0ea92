-- ===== src/Ledger.antt =====
-- The double-entry ledger: postings of apps/api/src/modules/payments/ledger.ts, and the writer and
-- the summary of apps/api/src/modules/payments/ledger.service.ts.
mod Postings
mod Writer
pub mod Balanced
pub mod Flow
pub mod Summary
mod Tests
unfoldable pub use Postings.*
unfoldable pub use Writer.*
