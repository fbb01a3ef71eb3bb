-- ===== src/Blocklist.antt =====
-- internal/blocklist: the block set and the allowlist (Store), without the downloads.
pub mod Loader
pub mod Normalize
pub mod Store
