-- ===== src/Api.antt =====
-- internal/api: the checks that every request to the dashboard passes.
pub mod Security
pub mod Hosts
pub mod Gate
pub mod Headers
mod Tests
