-- ===== src/Http.antt =====
-- The HTTP client of src/mediaman/services/infra/http/.
pub mod Retry
pub mod RetryLaws
pub mod RetryBounds
mod Tests
