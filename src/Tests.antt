-- ===== src/Tests.antt =====
-- Runs of the definitions on concrete inputs, and each theorem applied at one.
mod Data
mod Ids
mod Store
mod Keep
mod Policy
mod Hub
mod Proxy
mod Fetch
mod Torrent
mod Registry
mod Codec
mod Manifest
mod Oms
mod Verify
mod Verifying
