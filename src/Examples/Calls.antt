-- ===== src/Examples/Calls.antt =====
-- The theorems on the calls of a namespace, each at a state of the sample session.
use sim_expr_tree.Prelude.{
  ℕ, String, Bool, true, false, ◌≡◌, ◌≢◌, ◌↔◌, refl, none, some, List, [], ◌∷◌, ok, err, arith,
  next_u64, string_eq, pair_eq,
}
use sim_expr_tree.Prelude.HashMap.{get, insert, remove, contains_key}
use sim_expr_tree.Prelude.Decimal.{decimal}
use sim_expr_tree.Core.Name.{GeneratedNameKind, cell, generated_name, generated_name_inj, kind_eq}
use sim_expr_tree.Core.Id.{DirId}
use sim_expr_tree.Core.Stamp.{next_after}
use sim_expr_tree.Core.Node.{CellRecord, DirRecord}
use sim_expr_tree.Core.Checked.{new_name}
use sim_expr_tree.Core.Errors.{writer_already_active}
use sim_expr_tree.Core.Namespace.State.{
  Namespace, Slot, WriterLane, new, after, expect_slot, require_writer, ensure_parent, is_available,
  ensure_available, consume_reservation, next_stamp, child, reserved,
}
use sim_expr_tree.Core.Namespace.Valid.{IsValid}
use sim_expr_tree.Core.Namespace.Ancestry.{Above}
use sim_expr_tree.Core.Namespace.Writer
use sim_expr_tree.Core.Namespace.Reserve
use sim_expr_tree.Core.Namespace.Create
use sim_expr_tree.Core.Namespace.Move
use sim_expr_tree.Core.Namespace.Delete
use sim_expr_tree.Core.Namespace.Inherit.{effective_dir_policy, effective_cell_policy, patch_last}
use sim_expr_tree.Core.Namespace.Run
use sim_expr_tree.Core.Namespace.Keeps.Calls.{
  Returns, is_descendant_answers, move_dir-IsValid, delete_dir-IsValid,
}
use sim_expr_tree.Core.Namespace.Run.Fence.{lane_of, run-fenced, acquire_writer-excludes}
use sim_expr_tree.Core.Namespace.Effects.Names.{reserve_generated_name-fresh}
use sim_expr_tree.Core.Namespace.Effects.Cells.{Installed, create_cell-installs}
use sim_expr_tree.Core.Namespace.Effects.Policies.{effective_cell_policy-found}
use sim_expr_tree.Core.Namespace.Inherit.Lineage.{effective_dir_policy-child}
use sim_expr_tree.Examples.Session.{any_segment, lane, cell_request, start, sample, sample-IsValid}

move_dir-IsValid_example : Returns (λ x. IsValid x.1) (Move.move_dir lane "d1" "d2" "x" sample)
move_dir-IsValid_example = move_dir-IsValid sample sample-IsValid lane "d1" "d2" "x"

delete_dir-IsValid_example : Returns (λ x. IsValid x.1) (Delete.delete_dir lane "d2" sample)
delete_dir-IsValid_example = delete_dir-IsValid sample sample-IsValid lane "d2"

found : contains_key "d2" sample.dirs ≡ true
unfolding next_u64 Run.run Run.run_all new get insert remove new_name generated_name decimal
    Writer.acquire_writer Reserve.reserve_name Reserve.reserve_generated_name Reserve.reserve
    Reserve.bump_counter Create.create_cell Create.add_cell Create.create_dir Create.add_dir
    Move.move_dir Move.move_cell Move.move_cell_guards Move.relocate_cell Move.place_cell
    Move.place_dir Move.ensure_new_slot Move.walk_up Move.is_descendant Move.relocate_dir
    Move.relocate_found Move.unless_cycle Move.move_dir_guards after require_writer ensure_parent
    is_available ensure_available consume_reservation next_stamp expect_slot next_after
found = refl

is_descendant_answers_example :
    (b : Bool) × (Move.is_descendant sample "d2" "d1" ≡ some b)
    × ((b ≡ true) ↔ Above (Move.parent_of sample.dirs) "d1" "d2")
is_descendant_answers_example = is_descendant_answers sample sample-IsValid "d2" "d1" found

abbrev twelve : ℕ
twelve = 12

generated_name_inj_example : (cell ≡ cell) × (twelve ≡ twelve)
generated_name_inj_example = generated_name_inj cell cell twelve twelve refl

abbrev named : Namespace String
named = (Reserve.reserve_generated_name any_segment lane "d1" cell sample).1

named_ok : Reserve.reserve_generated_name any_segment lane "d1" cell sample ≡ (ok "cell-2", named)
unfolding next_u64 Run.run Run.run_all new get insert remove new_name generated_name decimal
    Writer.acquire_writer Reserve.reserve_name Reserve.reserve_generated_name Reserve.reserve
    Reserve.bump_counter Create.create_cell Create.add_cell Create.create_dir Create.add_dir
    Move.move_dir Move.move_cell Move.move_cell_guards Move.relocate_cell Move.place_cell
    Move.place_dir Move.ensure_new_slot Move.walk_up Move.is_descendant Move.relocate_dir
    Move.relocate_found Move.unless_cycle Move.move_dir_guards after require_writer ensure_parent
    is_available ensure_available consume_reservation next_stamp expect_slot next_after
named_ok = refl

reserve_generated_name-fresh_example :
    ("cell-2" ≡ generated_name cell (next_u64 (Reserve.counter sample "d1" cell)))
    × (any_segment "cell-2" ≡ true)
    × (child sample "d1" "cell-2" ≡ none)
    × (reserved sample "d1" "cell-2" ≡ false)
    × (reserved named "d1" "cell-2" ≡ true)
    × (Reserve.counter named "d1" cell ≡ next_u64 (Reserve.counter sample "d1" cell))
    × (named.cells ≡ sample.cells)
    × (named.dirs ≡ sample.dirs)
    × (named.children ≡ sample.children)
    × (named.root_dir ≡ sample.root_dir)
    × (named.current ≡ sample.current)
    × (named.writer_epoch ≡ sample.writer_epoch)
    × (named.writer_active ≡ sample.writer_active)
    × ((κ : DirId × GeneratedNameKind)
        → κ ≢ ("d1", cell)
        → Reserve.counter named κ.0 κ.1 ≡ Reserve.counter sample κ.0 κ.1)
    × ((σ : Slot) → σ ≢ ("d1", "cell-2") → get σ named.reservations ≡ get σ sample.reservations)
reserve_generated_name-fresh_example =
    reserve_generated_name-fresh any_segment lane "d1" cell sample named "cell-2" named_ok

abbrev second_cell : Create.CellCreate String
second_cell = record cell_request { id = "c2"; name = "cell-2" }

abbrev created : Namespace String
created = (Create.create_cell lane second_cell named).1

created_ok : Create.create_cell lane second_cell named ≡ (ok tt, created)
unfolding next_u64 Run.run Run.run_all new get insert remove new_name generated_name decimal
    Writer.acquire_writer Reserve.reserve_name Reserve.reserve_generated_name Reserve.reserve
    Reserve.bump_counter Create.create_cell Create.add_cell Create.create_dir Create.add_dir
    Move.move_dir Move.move_cell Move.move_cell_guards Move.relocate_cell Move.place_cell
    Move.place_dir Move.ensure_new_slot Move.walk_up Move.is_descendant Move.relocate_dir
    Move.relocate_found Move.unless_cycle Move.move_dir_guards after require_writer ensure_parent
    is_available ensure_available consume_reservation next_stamp expect_slot next_after
created_ok = refl

create_cell-installs_example : Installed second_cell named created
create_cell-installs_example = create_cell-installs lane second_cell named created created_ok

abbrev stale : WriterLane
stale = record { epoch = 0 }

abbrev refused : Run.Request String
refused = Run.delete_cell stale "c1"

refused_lane : lane_of refused ≡ some stale
unfolding lane_of
refused_lane = refl

stale_lane : ¬ ((sample.writer_active ≡ true) × (stale.epoch ≡ sample.writer_epoch))
unfolding next_u64 Run.run Run.run_all new get insert remove new_name generated_name decimal
    Writer.acquire_writer Reserve.reserve_name Reserve.reserve_generated_name Reserve.reserve
    Reserve.bump_counter Create.create_cell Create.add_cell Create.create_dir Create.add_dir
    Move.move_dir Move.move_cell Move.move_cell_guards Move.relocate_cell Move.place_cell
    Move.place_dir Move.ensure_new_slot Move.walk_up Move.is_descendant Move.relocate_dir
    Move.relocate_found Move.unless_cycle Move.move_dir_guards after require_writer ensure_parent
    is_available ensure_available consume_reservation next_stamp expect_slot next_after
stale_lane = λ h. ground (arith, h)

run-fenced_example : Run.run any_segment refused sample ≡ some sample
run-fenced_example = run-fenced any_segment refused stale sample refused_lane stale_lane

abbrev held : Namespace String
held = (Writer.acquire_writer start).1

held_ok : Writer.acquire_writer start ≡ (ok lane, held)
unfolding next_u64 Run.run Run.run_all new get insert remove new_name generated_name decimal
    Writer.acquire_writer Reserve.reserve_name Reserve.reserve_generated_name Reserve.reserve
    Reserve.bump_counter Create.create_cell Create.add_cell Create.create_dir Create.add_dir
    Move.move_dir Move.move_cell Move.move_cell_guards Move.relocate_cell Move.place_cell
    Move.place_dir Move.ensure_new_slot Move.walk_up Move.is_descendant Move.relocate_dir
    Move.relocate_found Move.unless_cycle Move.move_dir_guards after require_writer ensure_parent
    is_available ensure_available consume_reservation next_stamp expect_slot next_after
held_ok = refl

acquire_writer-excludes_example :
    (require_writer lane held ≡ ok tt)
    × (lane.epoch ≢ start.writer_epoch)
    × (Writer.acquire_writer held ≡ (err writer_already_active, held))
    × ((other : WriterLane) → require_writer other held ≡ ok tt → other.epoch ≡ lane.epoch)
acquire_writer-excludes_example = acquire_writer-excludes start held lane held_ok

-- the policy of the example: the patches, the nearest first
abbrev nearest_first : String → List String → List String
nearest_first patch patches = patch ∷ patches

abbrev inner_dir : DirRecord String
inner_dir = record {
  id = "d2";
  parent = some "d1";
  name = some "b";
  policy_patch = "patch 2";
  created_at = record {
    revision_tick = record { revision = 2; logical_tick = 2 };
    wall_time_ms = none;
  };
}

inner_dir_found : get "d2" sample.dirs ≡ some inner_dir
unfolding next_u64 Run.run Run.run_all new get insert remove new_name generated_name decimal
    Writer.acquire_writer Reserve.reserve_name Reserve.reserve_generated_name Reserve.reserve
    Reserve.bump_counter Create.create_cell Create.add_cell Create.create_dir Create.add_dir
    Move.move_dir Move.move_cell Move.move_cell_guards Move.relocate_cell Move.place_cell
    Move.place_dir Move.ensure_new_slot Move.walk_up Move.is_descendant Move.relocate_dir
    Move.relocate_found Move.unless_cycle Move.move_dir_guards after require_writer ensure_parent
    is_available ensure_available consume_reservation next_stamp expect_slot next_after
inner_dir_found = refl

effective_dir_policy-child_example :
    effective_dir_policy nearest_first [] sample "d2"
    ≡ patch_last nearest_first [] "patch 2" (effective_dir_policy nearest_first [] sample "d1")
effective_dir_policy-child_example =
    effective_dir_policy-child nearest_first [] sample sample-IsValid "d2" "d1" inner_dir
      inner_dir_found refl

abbrev leaf_cell : CellRecord String
leaf_cell =
    Create.record_of cell_request
      (record { revision_tick = record { revision = 3; logical_tick = 3 }; wall_time_ms = none })

leaf_cell_found : get "c1" sample.cells ≡ some leaf_cell
unfolding next_u64 Run.run Run.run_all new get insert remove new_name generated_name decimal
    Writer.acquire_writer Reserve.reserve_name Reserve.reserve_generated_name Reserve.reserve
    Reserve.bump_counter Create.create_cell Create.add_cell Create.create_dir Create.add_dir
    Move.move_dir Move.move_cell Move.move_cell_guards Move.relocate_cell Move.place_cell
    Move.place_dir Move.ensure_new_slot Move.walk_up Move.is_descendant Move.relocate_dir
    Move.relocate_found Move.unless_cycle Move.move_dir_guards after require_writer ensure_parent
    is_available ensure_available consume_reservation next_stamp expect_slot next_after
leaf_cell_found = refl

effective_cell_policy-found_example :
    (e : List String) × (effective_dir_policy nearest_first [] sample "d1" ≡ some (ok e))
    × (effective_cell_policy nearest_first [] sample "c1" ≡ some (ok ("cell patch" ∷ e)))
effective_cell_policy-found_example =
    effective_cell_policy-found nearest_first [] sample sample-IsValid "c1" leaf_cell
      leaf_cell_found
