-- ===== src/Runtime.antt =====
-- The links and processors of route-rs-runtime.
pub mod Crossbeam
pub mod TaskPark
pub mod Link
pub mod Composite
pub mod DropLink
pub mod Classifier
pub mod Processors
pub mod DecIpv4HopLimit
pub mod DecIpv6HopLimit
pub mod Tests
