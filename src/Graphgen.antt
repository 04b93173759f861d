-- ===== src/Graphgen.antt =====
-- The generator of routers, route-rs-graphgen.
pub mod Syn
pub mod Codegen
pub mod PipelineGraph
pub mod Links
pub mod Source
pub mod Scope
pub mod Fed
pub mod Ordered
pub mod Graph
pub mod Members
pub mod Generate
pub mod Cells
pub mod Drawn
pub mod Tests
