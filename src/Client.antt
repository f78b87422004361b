-- ===== src/Client.antt =====
-- The mobile client, mobile/src/lib: the amounts and dates of transactions.ts and the goal form of
-- goal-form.ts. A text is the list of its UTF-16 code units.
pub mod Forms
pub mod Refresh
pub mod Store
pub mod RoundTrip
pub mod Saved
mod Tests
