-- ===== src/Querylog.antt =====
-- internal/querylog: the query log, apart from its database.
mod Tests
pub mod Outcomes
pub mod Mask
pub mod Zero
pub mod File
pub mod Modes
