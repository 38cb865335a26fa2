-- ===== src/Core/Namespace/Delete.antt =====
-- `delete_cell` and `delete_dir`.
use sim_expr_tree.Prelude.{
  Bool, false, ◌||◌, Option, none, some, [], ◌∷◌, ok, err, ok_or, ◌==◌, string_eq, pair_eq,
  if◌then◌else◌,
}
use sim_expr_tree.Prelude.Exec.{◌>>=◌, ◌>>◌, pure, check, modify}
use sim_expr_tree.Prelude.HashMap.{HashMap, get, remove}
use sim_expr_tree.Core.Id.{CellId, DirId}
use sim_expr_tree.Core.Name.{NamespaceName}
use sim_expr_tree.Core.Node.{CellRecord, DirRecord}
use sim_expr_tree.Core.Errors.{missing_cell, missing_dir_record, dir_not_empty}
use sim_expr_tree.Core.Namespace.State.{
  Namespace, NamespaceEntry, Slot, WriterLane, Op, Call, after, expect_slot, require_writer,
  next_stamp,
}
use sim_expr_tree.Core.Namespace.Move.{ensure_not_root}

-- `self.children.keys().any(|(parent, _)| parent == id)`
unfoldable pub has_children : DirId → HashMap Slot NamespaceEntry → Bool
has_children id [] = false
has_children id ((slot, entry) ∷ rest) = slot.0 == id || has_children id rest

module _ {P : Type 0} where
  -- the writes of `delete_cell`, before the stamp
  unfoldable pub drop_cell : CellId → CellRecord P → Namespace P → Namespace P
  drop_cell id found s = record s {
    cells = remove id s.cells;
    children = remove (found.parent, found.name) s.children;
  }

  unfoldable pub delete_cell : WriterLane → CellId → Op P (CellRecord P)
  unfolding drop_cell
  delete_cell lane id = do
    check (require_writer lane)
    found ← check (λ s. ok_or (missing_cell id) (get id s.cells))
    modify (drop_cell id found)
    next_stamp
    pure found

  -- the writes of `delete_dir`, before the stamp
  unfoldable pub drop_dir : DirId → DirId → NamespaceName → Namespace P → Namespace P
  drop_dir id parent name s = record s {
    dirs = remove id s.dirs;
    children = remove (parent, name) s.children;
  }

  unfoldable pub delete_dir_guards : WriterLane → DirId → Op P (Unit {0})
  delete_dir_guards lane id = do
    check (require_writer lane)
    check (ensure_not_root id)
    check (λ s. if has_children id s.children then err (dir_not_empty id) else ok tt)

  unfoldable pub finish_delete_dir :
      DirId → DirRecord P → DirId → NamespaceName → Op P (DirRecord P)
  unfolding drop_dir
  finish_delete_dir id found parent name = do
    modify (drop_dir id parent name)
    next_stamp
    pure found

  unfoldable pub delete_found : DirId → Option (DirRecord P) → Call P (DirRecord P)
  unfolding finish_delete_dir expect_slot
  delete_found id none s = some (err (missing_dir_record id), s)
  delete_found id (some found) s =
      expect_slot found.parent found.name
        (λ parent name t. some (finish_delete_dir id found parent name t)) s

  unfoldable pub delete_dir : WriterLane → DirId → Call P (DirRecord P)
  unfolding after delete_dir_guards delete_found
  delete_dir lane id s =
      after (delete_dir_guards lane id s).0 (λ t. delete_found id (get id t.dirs) t) s
