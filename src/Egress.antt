-- ===== src/Egress.antt =====
-- The guard on outbound URLs of src/mediaman/services/infra/.
pub mod AddressLaws
pub mod AllowLaws
pub mod Blocks
mod Tests
pub mod Guard
pub mod GuardLaws
