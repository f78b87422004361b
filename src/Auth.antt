-- ===== src/Auth.antt =====
-- api/src/auth: one-time codes and refresh sessions.
--
-- Identifiers, hashes and tokens stand as numbers: the code only compares them, and makes them by
-- functions that are parameters here (SHA-256, bcrypt, HMAC, AES-GCM, JWT signing).
pub mod Sessions
pub mod Otp
pub mod Request
