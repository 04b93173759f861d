-- ===== src/Runtime/Processors.antt =====
-- The processors of route-rs-runtime/src/processor that pass on what they get: identity.rs and
-- transform_from.rs. They have no state.
use route_rs.Common.{Option, some}

-- `Identity`
abbrev pub identity : {A : Type 0} → Unit {0} → A → Option A × Unit {0}
identity self packet = (some packet, self)

-- `TransformFrom`, for the conversion `B::from`
abbrev pub transform_from : {A B : Type 0} → (A → B) → Unit {0} → A → Option B × Unit {0}
transform_from convert self packet = (some (convert packet), self)
