-- ===== src/Core/Namespace/Inherit.antt =====
-- The codec policy: `set_cell_policy`, `set_dir_policy`, and the inherited policy of a directory or a
-- cell, `effective_dir_policy` and `effective_cell_policy`.
pub mod Lineage
use mathlib.Core.List.{foldl, reverse}
use sim_expr_tree.Prelude.{
  ℕ, zero, suc, Option, none, some, List, [], ◌∷◌, Result, ok, err, ok_or, string_eq, length,
}
use sim_expr_tree.Prelude.Exec.{◌>>=◌, ◌>>◌, pure, check, modify}
use sim_expr_tree.Prelude.HashMap.{get, insert}
use sim_expr_tree.Core.Id.{CellId, DirId}
use sim_expr_tree.Core.Node.{DirRecord, set_cell_patch, set_dir_patch}
use sim_expr_tree.Core.Errors.{NamespaceError, missing_cell, missing_dir_record}
use sim_expr_tree.Core.Namespace.State.{Namespace, WriterLane, Op, require_writer, next_stamp}

module _ {P : Type 0} where
  unfoldable pub set_cell_policy : WriterLane → CellId → P → Op P (Unit {0})
  set_cell_policy lane id patch = do
    check (require_writer lane)
    found ← check (λ s. ok_or (missing_cell id) (get id s.cells))
    modify (λ s. record s { cells = insert id (set_cell_patch patch found) s.cells })
    next_stamp
    pure tt

  unfoldable pub set_dir_policy : WriterLane → DirId → P → Op P (Unit {0})
  set_dir_policy lane id patch = do
    check (require_writer lane)
    found ← check (λ s. ok_or (missing_dir_record id) (get id s.dirs))
    modify (λ s. record s { dirs = insert id (set_dir_patch patch found) s.dirs })
    next_stamp
    pure tt

  -- the lineage with one more record in front, where the rest of the loop found no gap
  unfoldable pub push_front :
      DirRecord P
      → Option (Result NamespaceError (List (DirRecord P)))
      → Option (Result NamespaceError (List (DirRecord P)))
  push_front dir none = none
  push_front dir (some (err e)) = some (err e)
  push_front dir (some (ok lineage)) = some (ok (dir ∷ lineage))

  -- the loop of `effective_dir_policy`, from a directory up to the root; `none`: out of fuel
  unfoldable pub collect_lineage :
      Namespace P → ℕ → DirId → Option (Result NamespaceError (List (DirRecord P)))
  unfolding push_front
  collect_lineage s zero cursor = none
  collect_lineage s (suc fuel) cursor = elim (get cursor s.dirs) [
    | none ↦ some (err (missing_dir_record cursor))
    | some dir ↦ elim dir.parent [
      | none ↦ some (ok (dir ∷ []))
      | some parent ↦ push_front dir (collect_lineage s fuel parent)
    ]
  ]

-- `E` is the resolved policy, `empty` the default one, and `apply_to` lays a patch over it.
module _ {P E : Type 0} (apply_to : P → E → E) (empty : E) where
  unfoldable pub apply_lineage : List (DirRecord P) → E
  apply_lineage lineage =
      foldl (λ effective dir. apply_to dir.policy_patch effective) empty (reverse lineage)

  unfoldable pub resolve :
      Option (Result NamespaceError (List (DirRecord P))) → Option (Result NamespaceError E)
  unfolding apply_lineage
  resolve none = none
  resolve (some (err e)) = some (err e)
  resolve (some (ok lineage)) = some (ok (apply_lineage lineage))

  unfoldable pub effective_dir_policy : Namespace P → DirId → Option (Result NamespaceError E)
  unfolding resolve collect_lineage
  effective_dir_policy s id = resolve (collect_lineage s (suc (length s.dirs)) id)

  unfoldable pub patch_last :
      P → Option (Result NamespaceError E) → Option (Result NamespaceError E)
  patch_last patch none = none
  patch_last patch (some (err e)) = some (err e)
  patch_last patch (some (ok effective)) = some (ok (apply_to patch effective))

  unfoldable pub effective_cell_policy : Namespace P → CellId → Option (Result NamespaceError E)
  unfolding effective_dir_policy patch_last
  effective_cell_policy s id = elim (get id s.cells) [
    | none ↦ some (err (missing_cell id))
    | some found ↦ patch_last found.policy_patch (effective_dir_policy s found.parent)
  ]
