-- ===== src/Keep.antt =====
-- internal/keep: the operations on kept revisions.
pub mod Upstream
pub mod Collect
pub mod Spared
pub mod Sweeping
pub mod Swept
pub mod Seed
pub mod Licence
pub mod Forbidden
pub mod Retention
pub mod Verify
pub mod Reported
pub mod Growth
pub mod Complete
