-- ===== src/Core/Errors.antt =====
-- crates/sim-expr-tree-core/src/error.rs
use sim_expr_tree.Prelude.{String}
use sim_expr_tree.Core.Id.{CellId, DirId}
use sim_expr_tree.Core.Name.{NamespaceName, GeneratedNameKind}

pub data NamespaceError : Type 0 where
  empty_id : String → NamespaceError
  illegal_name : String → NamespaceError
  missing_dir : DirId → NamespaceError
  missing_cell : CellId → NamespaceError
  missing_dir_record : DirId → NamespaceError
  name_collision : DirId → NamespaceName → NamespaceError
  missing_reservation : DirId → NamespaceName → NamespaceError
  counter_corruption : DirId → GeneratedNameKind → NamespaceName → NamespaceError
  writer_already_active : NamespaceError
  invalid_writer_lane : NamespaceError
  root_dir_cannot_move : NamespaceError
  dir_move_cycle : DirId → DirId → NamespaceError
  dir_not_empty : DirId → NamespaceError
