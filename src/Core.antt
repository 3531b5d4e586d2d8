-- ===== src/Core.antt =====
-- The helpers under src/mediaman/core/.
pub mod Time
pub mod TimeLaws
