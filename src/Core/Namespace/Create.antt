-- ===== src/Core/Namespace/Create.antt =====
-- `create_cell` and `create_dir`: a node takes up its reservation.
use sim_expr_tree.Prelude.{Option, some, none, string_eq, pair_eq}
use sim_expr_tree.Prelude.Exec.{◌>>=◌, ◌>>◌, check, modify}
use sim_expr_tree.Prelude.HashMap.{insert}
use sim_expr_tree.Core.Id.{CellId, DirId}
use sim_expr_tree.Core.Name.{NamespaceName}
use sim_expr_tree.Core.Stamp.{Stamp}
use sim_expr_tree.Core.Node.{NodeKind, SourceRecord, CellRecord, child_record}
use sim_expr_tree.Core.Namespace.State.{
  Namespace, NamespaceEntry, WriterLane, Op, require_writer, ensure_available, consume_reservation,
  next_stamp,
}

pub record CellCreate (P : Type 0) : Type 0 where
  pub id : CellId
  pub parent : DirId
  pub name : NamespaceName
  pub kind : NodeKind
  pub source : Option SourceRecord
  pub policy_patch : P

module _ {P : Type 0} where
  -- `CellCreate::new`, `with_source` and `with_policy_patch`; `empty` is the patch that changes nothing
  unfoldable pub new_request : P → CellId → DirId → NamespaceName → NodeKind → CellCreate P
  new_request empty id parent name kind = record {
    id = id;
    parent = parent;
    name = name;
    kind = kind;
    source = none;
    policy_patch = empty;
  }

  unfoldable pub with_source : SourceRecord → CellCreate P → CellCreate P
  with_source source request = record request { source = some source }

  unfoldable pub with_policy_patch : P → CellCreate P → CellCreate P
  with_policy_patch patch request = record request { policy_patch = patch }

  -- `CellRecord::new` of the request
  abbrev pub record_of : CellCreate P → Stamp → CellRecord P
  record_of request stamp = record {
    id = request.id;
    parent = request.parent;
    name = request.name;
    kind = request.kind;
    source = request.source;
    policy_patch = request.policy_patch;
    created_at = stamp;
  }

  unfoldable pub add_cell : CellCreate P → Stamp → Namespace P → Namespace P
  add_cell request stamp s = record s {
    children =
        insert (request.parent, request.name) (NamespaceEntry.cell request.id request.kind)
          s.children;
    cells = insert request.id (record_of request stamp) s.cells;
  }

  unfoldable pub create_cell : WriterLane → CellCreate P → Op P (Unit {0})
  unfolding add_cell
  create_cell lane request = do
    check (require_writer lane)
    consume_reservation request.parent request.name
    check (ensure_available request.parent request.name)
    stamp ← next_stamp
    modify (add_cell request stamp)

  unfoldable pub add_dir : DirId → DirId → NamespaceName → P → Stamp → Namespace P → Namespace P
  add_dir id parent name patch stamp s = record s {
    children = insert (parent, name) (NamespaceEntry.dir id) s.children;
    dirs = insert id (child_record id parent name patch stamp) s.dirs;
  }

  unfoldable pub create_dir : WriterLane → DirId → DirId → NamespaceName → P → Op P (Unit {0})
  unfolding add_dir
  create_dir lane id parent name patch = do
    check (require_writer lane)
    consume_reservation parent name
    check (ensure_available parent name)
    stamp ← next_stamp
    modify (add_dir id parent name patch stamp)
