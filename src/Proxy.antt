-- ===== src/Proxy.antt =====
-- internal/proxy: the server in front of the store.
pub mod Route
pub mod Safety
