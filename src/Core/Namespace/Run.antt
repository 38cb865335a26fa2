-- ===== src/Core/Namespace/Run.antt =====
-- A whole session with one namespace: a sequence of calls, each with its own arguments, failing or not.
pub mod Reach
pub mod Fence
use mathlib.Core.Option
use sim_expr_tree.Prelude.{
  String, Bool, true, false, ◌≡◌, Option, none, some, List, [], ◌∷◌, string_eq,
}
use sim_expr_tree.Prelude.HashMap.{get, contains_key}
use sim_expr_tree.Core.Id.{CellId, DirId}
use sim_expr_tree.Core.Name.{NamespaceName, GeneratedNameKind}
use sim_expr_tree.Core.Namespace.State.{Namespace, WriterLane}
use sim_expr_tree.Core.Namespace.Writer
use sim_expr_tree.Core.Namespace.Reserve
use sim_expr_tree.Core.Namespace.Create
use sim_expr_tree.Core.Namespace.Create.{CellCreate}
use sim_expr_tree.Core.Namespace.Move
use sim_expr_tree.Core.Namespace.Delete
use sim_expr_tree.Core.Namespace.Inherit

-- the methods of `Namespace` that take `&mut self`
pub data Request (P : Type 0) : Type 0 where
  acquire_writer : Request P
  release_writer : WriterLane → Request P
  reserve_name : WriterLane → DirId → NamespaceName → Request P
  reserve_generated_name : WriterLane → DirId → GeneratedNameKind → Request P
  create_cell : WriterLane → CellCreate P → Request P
  create_dir : WriterLane → DirId → DirId → NamespaceName → P → Request P
  move_cell : WriterLane → CellId → DirId → NamespaceName → Request P
  move_dir : WriterLane → DirId → DirId → NamespaceName → Request P
  set_cell_policy : WriterLane → CellId → P → Request P
  set_dir_policy : WriterLane → DirId → P → Request P
  delete_cell : WriterLane → CellId → Request P
  delete_dir : WriterLane → DirId → Request P

abbrev state_after {ℓ} : {A S : Type ℓ} → Option (A × S) → Option S
state_after none = none
state_after (some (a, s)) = some s

module _ {P : Type 0} (legal : String → Bool) where
  -- The state that a call leaves, whatever it answers; `none` if it does not return.
  unfoldable pub run : Request P → Namespace P → Option (Namespace P)
  run acquire_writer s = some (Writer.acquire_writer s).1
  run (release_writer lane) s = some (Writer.release_writer lane s).1
  run (reserve_name lane parent name) s = some (Reserve.reserve_name lane parent name s).1
  run (reserve_generated_name lane parent kind) s =
      some (Reserve.reserve_generated_name legal lane parent kind s).1
  run (create_cell lane request) s = some (Create.create_cell lane request s).1
  run (create_dir lane id parent name patch) s =
      some (Create.create_dir lane id parent name patch s).1
  run (move_cell lane id parent name) s = state_after (Move.move_cell lane id parent name s)
  run (move_dir lane id parent name) s = state_after (Move.move_dir lane id parent name s)
  run (set_cell_policy lane id patch) s = some (Inherit.set_cell_policy lane id patch s).1
  run (set_dir_policy lane id patch) s = some (Inherit.set_dir_policy lane id patch s).1
  run (delete_cell lane id) s = some (Delete.delete_cell lane id s).1
  run (delete_dir lane id) s = state_after (Delete.delete_dir lane id s)

  -- What the callers of the namespace see to: a node is created under a directory that is there, with
  -- an identity that no live node of its family has.
  abbrev pub IsAdmissible : Request P → Namespace P → Type 0
  IsAdmissible (create_cell lane request) s =
      (get request.id s.cells ≡ none) × (contains_key request.parent s.dirs ≡ true)
  IsAdmissible (create_dir lane id parent name patch) s =
      (get id s.dirs ≡ none) × (contains_key parent s.dirs ≡ true)
  IsAdmissible _ s = Unit

  abbrev pub then_run :
      (Namespace P → Option (Namespace P)) → Option (Namespace P) → Option (Namespace P)
  then_run rest none = none
  then_run rest (some s) = rest s

  unfoldable pub run_all : List (Request P) → Namespace P → Option (Namespace P)
  run_all [] s = some s
  run_all (request ∷ rest) s = then_run (run_all rest) (run request s)

  -- what is asked of the state that a call leaves
  abbrev pub Next : (Namespace P → Type 0) → Option (Namespace P) → Type 0
  Next Q none = Unit
  Next Q (some s) = Q s

  abbrev pub AllAdmissible : List (Request P) → Namespace P → Type 0
  AllAdmissible [] s = Unit
  AllAdmissible (request ∷ rest) s =
      IsAdmissible request s × Next (AllAdmissible rest) (run request s)
