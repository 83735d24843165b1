-- ===== src/Utils.antt =====
-- The helpers of drivers in driver/utils.py.
pub mod Rate
pub mod Ttl
pub mod Upload
pub mod Estimate
pub mod Threads
