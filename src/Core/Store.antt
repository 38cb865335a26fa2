-- ===== src/Core/Store.antt =====
-- crates/sim-expr-tree-core/src/store.rs: the source, control and derived stores, the mounts and the
-- two-phase commit.
pub mod Types
pub mod Mount
pub mod Commit
pub mod Laws
pub mod Shadow
pub mod Recovery
