-- ===== src/Blocklist/Loader.antt =====
-- internal/blocklist/loader.go: the lists, from a downloaded body to the block set of the Store.
mod Tests
pub mod Domains
pub mod Hosts
pub mod Files
pub mod Fetch
pub mod Update
