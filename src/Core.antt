-- ===== src/Core.antt =====
-- The crate sim-expr-tree-core: namespace records, generated names, codec policy, store lanes.
pub mod Id
pub mod Name
pub mod Stamp
pub mod Node
pub mod Errors
pub mod Checked
pub mod Policy
pub mod Store
pub mod Namespace
