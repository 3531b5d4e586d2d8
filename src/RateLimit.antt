-- ===== src/RateLimit.antt =====
-- The rate limiters of src/mediaman/services/rate_limit/limiters.py.
pub mod Action
pub mod Window
pub mod ActionSpec
pub mod ActionRun
pub mod ActionCaps
pub mod Ip
pub mod IpBounds
pub mod IpCheck
mod Tests
