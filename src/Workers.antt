-- ===== src/Workers.antt =====
-- The threads of the launcher, launcher.py.
pub mod Assign
pub mod Cleanup
pub mod Deleted
pub mod Minimum
pub mod Tenants
pub mod Order
pub mod Take
pub mod Rounds
