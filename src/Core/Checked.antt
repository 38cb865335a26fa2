-- ===== src/Core/Checked.antt =====
-- crates/sim-expr-tree-core/src/id.rs and name.rs: the checked constructors of identities and names.
use sim_expr_tree.Prelude.{String, Bool, Result, ok, err, ◌==◌, string_eq, if◌then◌else◌}
use sim_expr_tree.Core.Errors.{NamespaceError, empty_id, illegal_name}
use sim_expr_tree.Core.Name.{NamespaceName}

-- `TreeId::new`, `CellId::new`, `DirId::new`: `label` is the family's name
unfoldable pub new_id : String → String → Result NamespaceError String
new_id label value = if value == "" then err (empty_id label) else ok value

-- `NamespaceName::new`; `legal` is sim-table-core's `is_legal_table_segment`
unfoldable pub new_name : (String → Bool) → String → Result NamespaceError NamespaceName
new_name legal value = if legal value then ok value else err (illegal_name value)
