-- ===== src/Statement.antt =====
-- Bank statements: transaction-import.csv.ts, transaction-import.adapters.ts and
-- transaction-import.parser.ts of api/src/transactions.
--
-- A text is the list of its UTF-16 code units.
pub mod Encoding
pub mod Text
pub mod Csv
pub mod RoundTrip
pub mod Decimal
pub mod Values
pub mod Adapters
pub mod Parser
pub mod Layouts
pub mod Rows
pub mod Fingerprints
pub mod Preview
pub mod FirstImport
mod Tests
