-- ===== src/Torrent.antt =====
-- internal/torrent: the torrents that a node seeds (build.go), and the storage that serves them
-- (blobstorage.go).
pub mod Length
pub mod Pieces
pub mod Feeding
pub mod Build
pub mod Blocks
pub mod Hashing
pub mod Adding
pub mod Storage
pub mod Serving
pub mod Offsets
pub mod Placing
pub mod Served
pub mod Agreement
pub mod Acceptance
pub mod Writing
