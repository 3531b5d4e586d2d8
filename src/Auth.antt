-- ===== src/Auth.antt =====
-- The login of src/mediaman/web/auth/: the lockout after failed attempts, and the check of a password.
pub mod Lockout
pub mod Login
pub mod LockoutSpec
pub mod LockoutRun
pub mod Corrupt
pub mod LoginLaws
mod Tests
