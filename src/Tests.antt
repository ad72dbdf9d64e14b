-- ===== src/Tests.antt =====
-- Concrete inputs on which the theorems are applied.
pub mod Samples
pub mod Packets
pub mod Streams
pub mod Players
pub mod Clients
pub mod Systems
pub mod Paths
pub mod Proxies
pub mod Formats
