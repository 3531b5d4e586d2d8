-- ===== src/Search.antt =====
-- The searches for items that are missing: src/mediaman/services/arr/ and core/backoff.py.
pub mod Backoff
pub mod BackoffLaws
pub mod Throttle
pub mod Trigger
pub mod TriggerLaws
pub mod Spacing
pub mod Sending
pub mod Race
pub mod Overlap
pub mod Abandon
pub mod AbandonLaws
pub mod Sweep
mod Tests
