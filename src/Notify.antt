-- ===== src/Notify.antt =====
-- The notifications of src/mediaman/services/downloads/.
pub mod Claims
pub mod Probe
pub mod Tick
pub mod Laws
pub mod Settle
pub mod Once
pub mod Steps
pub mod Flight
pub mod Overlap
mod Tests
pub mod Arrival
