-- ===== src/Runtime/Composite.antt =====
-- The links of route-rs-runtime/src/link/composite that join streams and copy the packets to every
-- egressor.
pub mod MtoN
pub mod MtransformN
pub mod Building
pub mod Delivery
pub mod Tests
