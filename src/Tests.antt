-- ===== src/Tests.antt =====
-- Concrete parsers, a concrete host and a ring, and the theorems applied to them.
pub mod Parsers
pub mod Host
pub mod Disk
pub mod DiskLaws
pub mod Systems
pub mod Witnesses
pub mod Connections
pub mod Runs
pub mod Transfers
