-- ===== src/Dnsserver.antt =====
-- internal/dnsserver: the handler of the queries, the forwarder, and the checks that they call.
pub mod Chain
pub mod Dot
pub mod Edns
pub mod Failures
pub mod Handler
pub mod Lan
pub mod LocalNames
pub mod Ptr
pub mod Upstream
