-- ===== src/Core/Namespace/Move.antt =====
-- `move_cell` and `move_dir`, with the walk `is_descendant` that keeps the directories a tree.
use sim_expr_tree.Prelude.{
  ℕ, zero, suc, Bool, true, false, ◌&&◌, Option, none, some, Result, ok, err, ok_or, ◌==◌,
  string_eq, pair_eq, length, if◌then◌else◌,
}
use sim_expr_tree.Prelude.Exec.{◌>>=◌, ◌>>◌, pure, check, modify}
use sim_expr_tree.Prelude.HashMap.{HashMap, get, insert, remove}
use sim_expr_tree.Core.Id.{CellId, DirId}
use sim_expr_tree.Core.Name.{NamespaceName}
use sim_expr_tree.Core.Node.{CellRecord, DirRecord, rename_cell, rename_dir}
use sim_expr_tree.Core.Errors.{
  NamespaceError, missing_cell, missing_dir_record, root_dir_cannot_move, dir_move_cycle,
}
use sim_expr_tree.Core.Namespace.State.{
  Namespace, NamespaceEntry, WriterLane, Op, Call, after, expect_slot, require_writer,
  ensure_parent, ensure_available, next_stamp,
}

module _ {P : Type 0} where
  -- the test `old_parent != *new_parent || old_name != new_name` guards the check of the new slot
  unfoldable pub ensure_new_slot :
      DirId → NamespaceName → DirId → NamespaceName → Namespace P → Result NamespaceError (Unit {0})
  ensure_new_slot old_parent old_name new_parent new_name s =
      if old_parent == new_parent && old_name == new_name
      then ok tt
      else ensure_available new_parent new_name s

  -- the writes of `move_cell`, before the stamp
  unfoldable pub place_cell :
      CellId → CellRecord P → DirId → NamespaceName → Namespace P → Namespace P
  place_cell id found parent name s = record s {
    children =
        insert (parent, name) (NamespaceEntry.cell id found.kind)
          (remove (found.parent, found.name) s.children);
    cells = insert id (rename_cell parent name found) s.cells;
  }

  -- the checks of `move_cell`, with the record that is found
  unfoldable pub move_cell_guards :
      WriterLane → CellId → DirId → NamespaceName → Op P (CellRecord P)
  move_cell_guards lane id new_parent new_name = do
    check (require_writer lane)
    check (ensure_parent new_parent)
    found ← check (λ s. ok_or (missing_cell id) (get id s.cells))
    check (ensure_new_slot found.parent found.name new_parent new_name)
    pure found

  -- behind the checks the record is looked up again to be renamed, and the `expect` says that it is there
  unfoldable pub relocate_cell :
      CellId → DirId → NamespaceName → Result NamespaceError (CellRecord P) → Call P (Unit {0})
  unfolding place_cell
  relocate_cell id new_parent new_name (err e) s = some (err e, s)
  relocate_cell id new_parent new_name (ok _) s = elim (get id s.cells) [
    | none ↦ none
    | some found ↦
        some ((do modify (place_cell id found new_parent new_name); next_stamp; pure tt) s)
  ]

  unfoldable pub move_cell : WriterLane → CellId → DirId → NamespaceName → Call P (Unit {0})
  unfolding move_cell_guards relocate_cell
  move_cell lane id new_parent new_name s =
      relocate_cell id new_parent new_name (move_cell_guards lane id new_parent new_name s).0 s

  -- the parent of a directory, as `self.dirs.get(id).and_then(DirRecord::parent)` reads it
  unfoldable pub parent_of : HashMap DirId (DirRecord P) → DirId → Option DirId
  parent_of dirs id = elim (get id dirs) [ none ↦ none | some r ↦ r.parent ]

  -- `is_descendant`: the loop walks up from `cursor`; `none` where the fuel runs out
  unfoldable pub walk_up : HashMap DirId (DirRecord P) → ℕ → Option DirId → DirId → Option Bool
  walk_up dirs fuel none ancestor = some false
  walk_up dirs zero (some id) ancestor = none
  walk_up dirs (suc fuel) (some id) ancestor = elim (id == ancestor) [
    | true ↦ some true
    | false ↦ walk_up dirs fuel (parent_of dirs id) ancestor
  ]

  -- One round for each directory, and one more.
  unfoldable pub is_descendant : Namespace P → DirId → DirId → Option Bool
  unfolding walk_up parent_of
  is_descendant s candidate ancestor =
      walk_up s.dirs (suc (length s.dirs)) (some candidate) ancestor

  -- the writes of `move_dir`, before the stamp
  unfoldable pub place_dir :
      DirId
      → DirRecord P
      → DirId
      → NamespaceName
      → DirId
      → NamespaceName
      → Namespace P
      → Namespace P
  place_dir id found old_parent old_name parent name s = record s {
    children =
        insert (parent, name) (NamespaceEntry.dir id) (remove (old_parent, old_name) s.children);
    dirs = insert id (rename_dir parent name found) s.dirs;
  }

  abbrev pub ensure_not_root : DirId → Namespace P → Result NamespaceError (Unit {0})
  ensure_not_root id s = if id == s.root_dir then err root_dir_cannot_move else ok tt

  -- the rest of `move_dir` once the record's parent and name are read; the record is looked up again to be
  -- renamed, and the third `expect` says that it is there
  unfoldable pub relocate_dir :
      DirId → DirId → NamespaceName → DirId → NamespaceName → Call P (Unit {0})
  unfolding place_dir after
  relocate_dir id old_parent old_name new_parent new_name s =
      after (ensure_new_slot old_parent old_name new_parent new_name s)
        (λ t. elim (get id t.dirs) [
          | none ↦ none
          | some found ↦ some (
              (do
                modify (place_dir id found old_parent old_name new_parent new_name)
                next_stamp
                pure tt)
                t)
        ])
        s

  -- once the walk has found no cycle
  unfoldable pub relocate_found :
      DirId → Option (DirRecord P) → DirId → NamespaceName → Call P (Unit {0})
  unfolding relocate_dir expect_slot
  relocate_found id none new_parent new_name s = some (err (missing_dir_record id), s)
  relocate_found id (some found) new_parent new_name s =
      expect_slot found.parent found.name
        (λ old_parent old_name. relocate_dir id old_parent old_name new_parent new_name) s

  -- the answer of the walk; `none` if it does not end
  unfoldable pub unless_cycle : DirId → DirId → Option Bool → Call P (Unit {0}) → Call P (Unit {0})
  unless_cycle id new_parent none rest s = none
  unless_cycle id new_parent (some true) rest s = some (err (dir_move_cycle id new_parent), s)
  unless_cycle id new_parent (some false) rest s = rest s

  unfoldable pub move_dir_guards : WriterLane → DirId → DirId → Op P (Unit {0})
  move_dir_guards lane id new_parent = do
    check (require_writer lane)
    check (ensure_not_root id)
    check (ensure_parent new_parent)

  unfoldable pub move_dir : WriterLane → DirId → DirId → NamespaceName → Call P (Unit {0})
  unfolding after move_dir_guards unless_cycle is_descendant relocate_found
  move_dir lane id new_parent new_name s =
      after (move_dir_guards lane id new_parent s).0
        (unless_cycle id new_parent (is_descendant s new_parent id)
          (λ t. relocate_found id (get id t.dirs) new_parent new_name t))
        s
