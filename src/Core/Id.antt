-- ===== src/Core/Id.antt =====
-- crates/sim-expr-tree-core/src/id.rs: each identity is a wrapped text. The macro's checked constructor
-- stands in Core/Checked, since it returns the crate's error.
use sim_expr_tree.Prelude.{String}

-- `id_type!(TreeId, …)`, `id_type!(CellId, …)`, `id_type!(DirId, …)`
abbrev pub TreeId : Type 0
TreeId = String

abbrev pub CellId : Type 0
CellId = String

abbrev pub DirId : Type 0
DirId = String
