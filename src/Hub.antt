-- ===== src/Hub.antt =====
-- internal/hub: the client's vocabulary, repositories (repo.go), URL escaping as it uses it, and
-- the classification of answers (errors.go).
pub mod Repo
pub mod Escape
pub mod Segments
pub mod Errors
pub mod Retry
pub mod Download
