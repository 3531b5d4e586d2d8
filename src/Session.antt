-- ===== src/Session.antt =====
-- The sessions of src/mediaman/web/auth/ and their tickets of re-authentication.
pub mod Store
pub mod Fingerprint
pub mod Validate
pub mod Reauth
pub mod SweepLaws
pub mod Life
pub mod Run
pub mod TicketLaws
mod Tests
