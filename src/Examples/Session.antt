-- ===== src/Examples/Session.antt =====
-- A session with a namespace: two directories, a cell with a generated name, and moves.
use sim_expr_tree.Prelude.{
  String, Bool, true, ◌≡◌, refl, subst, Option, none, some, List, [], ◌∷◌, arith, next_u64,
}
use sim_expr_tree.Prelude.HashMap.{get, insert, remove}
use sim_expr_tree.Core.Name.{cell, generated_name}
use sim_expr_tree.Core.Checked.{new_name}
use sim_expr_tree.Prelude.Decimal.{decimal}
use sim_expr_tree.Core.Node.{source_node}
use sim_expr_tree.Core.Namespace.State.{
  expect_slot, Namespace, WriterLane, new, after, require_writer, ensure_parent, is_available,
  ensure_available, consume_reservation, next_stamp,
}
use sim_expr_tree.Core.Namespace.Valid.{IsValid}
use sim_expr_tree.Core.Namespace.Create.{CellCreate}
use sim_expr_tree.Core.Namespace.Writer
use sim_expr_tree.Core.Namespace.Reserve
use sim_expr_tree.Core.Namespace.Create
use sim_expr_tree.Core.Namespace.Move
use sim_expr_tree.Core.Namespace.Run.{
  Request, acquire_writer, reserve_name, reserve_generated_name, create_cell, create_dir, move_cell,
  move_dir, run, run_all, AllAdmissible,
}
use sim_expr_tree.Core.Namespace.Run.Reach.{run_all-IsValid}

-- every segment is legal
abbrev pub any_segment : String → Bool
any_segment s = true

abbrev pub lane : WriterLane
lane = record { epoch = 1 }

-- a patch is a text here
abbrev pub cell_request : CellCreate String
cell_request = record {
  id = "c1";
  parent = "d1";
  name = "cell-1";
  kind = source_node;
  source = none;
  policy_patch = "cell patch";
}

abbrev pub requests : List (Request String)
requests =
    acquire_writer
    ∷ reserve_name lane "root" "a"
    ∷ create_dir lane "d1" "root" "a" "patch 1"
    ∷ reserve_name lane "d1" "b"
    ∷ create_dir lane "d2" "d1" "b" "patch 2"
    ∷ reserve_generated_name lane "d1" cell
    ∷ create_cell lane cell_request
    ∷ move_dir lane "d1" "d2" "x"
    ∷ move_cell lane "c1" "d2" "y"
    ∷ []

abbrev pub start : Namespace String
start = new "" "tree" "root"

requests-admissible : AllAdmissible any_segment requests start
unfolding next_u64 run new get insert remove new_name generated_name decimal Writer.acquire_writer
    Reserve.reserve_name Reserve.reserve_generated_name Reserve.reserve Reserve.bump_counter
    Create.create_cell Create.add_cell Create.create_dir Create.add_dir Move.move_dir Move.move_cell
    Move.move_cell_guards Move.relocate_cell Move.place_cell Move.place_dir Move.ensure_new_slot
    Move.walk_up Move.is_descendant Move.relocate_dir Move.relocate_found Move.unless_cycle
    Move.move_dir_guards after require_writer ensure_parent is_available ensure_available
    consume_reservation next_stamp expect_slot
requests-admissible =
    (tt, (tt, ((refl, refl), (tt, ((refl, refl), (tt, ((refl, refl), (tt, (tt, tt)))))))))

run_all-IsValid_example :
    (t : Namespace String) × (run_all any_segment requests start ≡ some t) × IsValid t
run_all-IsValid_example = run_all-IsValid any_segment "" "tree" "root" requests requests-admissible

-- the session up to the creation of the cell
abbrev pub built : List (Request String)
built =
    acquire_writer
    ∷ reserve_name lane "root" "a"
    ∷ create_dir lane "d1" "root" "a" "patch 1"
    ∷ reserve_name lane "d1" "b"
    ∷ create_dir lane "d2" "d1" "b" "patch 2"
    ∷ reserve_generated_name lane "d1" cell
    ∷ create_cell lane cell_request
    ∷ []

abbrev pub or_start : Option (Namespace String) → Namespace String
or_start none = start
or_start (some s) = s

-- the namespace that it leaves: `a` holds `b` and the cell
abbrev pub sample : Namespace String
sample = or_start (run_all any_segment built start)

built-admissible : AllAdmissible any_segment built start
unfolding next_u64 run run_all new get insert remove new_name generated_name decimal
    Writer.acquire_writer Reserve.reserve_name Reserve.reserve_generated_name Reserve.reserve
    Reserve.bump_counter Create.create_cell Create.add_cell Create.create_dir Create.add_dir
    Move.move_dir Move.move_cell Move.move_cell_guards Move.relocate_cell Move.place_cell
    Move.place_dir Move.ensure_new_slot Move.walk_up Move.is_descendant Move.relocate_dir
    Move.relocate_found Move.unless_cycle Move.move_dir_guards after require_writer ensure_parent
    is_available ensure_available consume_reservation next_stamp expect_slot
built-admissible = (tt, (tt, ((refl, refl), (tt, ((refl, refl), (tt, ((refl, refl), tt)))))))

sample_reached : run_all any_segment built start ≡ some sample
unfolding next_u64 run run_all new get insert remove new_name generated_name decimal
    Writer.acquire_writer Reserve.reserve_name Reserve.reserve_generated_name Reserve.reserve
    Reserve.bump_counter Create.create_cell Create.add_cell Create.create_dir Create.add_dir
    Move.move_dir Move.move_cell Move.move_cell_guards Move.relocate_cell Move.place_cell
    Move.place_dir Move.ensure_new_slot Move.walk_up Move.is_descendant Move.relocate_dir
    Move.relocate_found Move.unless_cycle Move.move_dir_guards after require_writer ensure_parent
    is_available ensure_available consume_reservation next_stamp expect_slot
sample_reached = refl

IsValid-of :
    (o : Option (Namespace String)) (s : Namespace String)
    → (t : Namespace String) × (o ≡ some t) × IsValid t
    → o ≡ some s
    → IsValid s
IsValid-of o s (t, e, v) h = let same : t ≡ s = ground arith in subst IsValid same v

pub sample-IsValid : IsValid sample
sample-IsValid =
    IsValid-of (run_all any_segment built start) sample
      (run_all-IsValid any_segment "" "tree" "root" built built-admissible) sample_reached
