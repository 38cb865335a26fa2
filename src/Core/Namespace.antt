-- ===== src/Core/Namespace.antt =====
-- crates/sim-expr-tree-core/src/namespace.rs: the durable records of one expression tree and the
-- operations of the serialized writer. The operations that write stand in the child modules.
pub mod State
pub mod Writer
pub mod Reserve
pub mod Create
pub mod Move
pub mod Delete
pub mod Inherit
mod Index
pub mod Ancestry
pub mod Valid
pub mod Keeps
pub mod Run
pub mod Effects
mod Reparent
