-- ===== src/Driver.antt =====
-- driver/.
pub mod Quota
pub mod Labels
pub mod Handler
