-- ===== src/Fetch.antt =====
-- internal/fetch: downloading files into the store.
pub mod Transfer
pub mod Outcome
pub mod Success
pub mod Overlong
pub mod Fetching
pub mod Returned
