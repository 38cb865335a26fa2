-- ===== src/Core/Namespace/Run/Fence.antt =====
-- The single writer lane fences the namespace: a call with a lane that is not the held one changes
-- nothing, and while a lane is held no other is given out.
use sim_expr_tree.Prelude.{
  String, Bool, true, ◌≡◌, ◌≢◌, refl, Option, none, some, ok, err, ◌==◌, nat_eq, string_eq, pair_eq,
  next_u64_moves, arith, Bool-cases, inl, inr,
}
use sim_expr_tree.Core.Errors.{writer_already_active, invalid_writer_lane}
use sim_expr_tree.Core.Namespace.State.{Namespace, WriterLane, require_writer, after}
use sim_expr_tree.Core.Namespace.Writer
use sim_expr_tree.Core.Namespace.Reserve
use sim_expr_tree.Core.Namespace.Create
use sim_expr_tree.Core.Namespace.Move
use sim_expr_tree.Core.Namespace.Inherit
use sim_expr_tree.Core.Namespace.Delete
use sim_expr_tree.Core.Namespace.Move.{move_dir_guards}
use sim_expr_tree.Core.Namespace.Delete.{delete_dir_guards}
use sim_expr_tree.Core.Namespace.Run.{
  Request, acquire_writer, release_writer, reserve_name, reserve_generated_name, create_cell,
  create_dir, move_cell, move_dir, set_cell_policy, set_dir_policy, delete_cell, delete_dir, run,
}

module _ {P : Type 0} where
  -- the lane that a request presents
  unfoldable pub lane_of : Request P → Option WriterLane
  lane_of acquire_writer = none
  lane_of (release_writer lane) = some lane
  lane_of (reserve_name lane parent name) = some lane
  lane_of (reserve_generated_name lane parent kind) = some lane
  lane_of (create_cell lane request) = some lane
  lane_of (create_dir lane id parent name patch) = some lane
  lane_of (move_cell lane id parent name) = some lane
  lane_of (move_dir lane id parent name) = some lane
  lane_of (set_cell_policy lane id patch) = some lane
  lane_of (set_dir_policy lane id patch) = some lane
  lane_of (delete_cell lane id) = some lane
  lane_of (delete_dir lane id) = some lane

  -- the lane that the namespace has given out and not taken back
  abbrev pub Holds : WriterLane → Namespace P → Type 0
  Holds lane s = (s.writer_active ≡ true) × (lane.epoch ≡ s.writer_epoch)

  pub require_writer-refused :
      (lane : WriterLane) (s : Namespace P)
      → ¬ Holds lane s
      → require_writer lane s ≡ err invalid_writer_lane
  unfolding require_writer
  require_writer-refused lane s strange = elim (Bool-cases s.writer_active) [
    | inl active ↦ elim (Bool-cases (lane.epoch == s.writer_epoch)) [
      | inl same ↦ absurd (strange (active, ground arith))
      | inr other ↦ rw (active, other) refl
    ]
    | inr idle ↦ rw idle refl
  ]

  refused_presented :
      (a lane : WriterLane) (s : Namespace P)
      → ¬ Holds lane s
      → some a ≡ some lane
      → require_writer a s ≡ err invalid_writer_lane
  refused_presented a lane s strange presented =
      let same : a ≡ lane = ground arith in rw same (require_writer-refused lane s strange)

  module _ (legal : String → Bool) where
    -- A request of any kind that presents a lane which is not the held one returns and leaves the
    -- namespace as it was.
    pub run-fenced :
        (request : Request P) (lane : WriterLane) (s : Namespace P)
        → lane_of request ≡ some lane
        → ¬ Holds lane s
        → run legal request s ≡ some s
    unfolding lane_of run Writer.release_writer Reserve.reserve_name Reserve.reserve_generated_name
        Create.create_cell Create.create_dir Move.move_cell Move.move_dir Inherit.set_cell_policy
        Inherit.set_dir_policy Delete.delete_cell Delete.delete_dir Move.move_cell_guards
        Move.relocate_cell move_dir_guards delete_dir_guards after
    run-fenced acquire_writer lane s presented strange = absurd (ground arith)
    run-fenced (release_writer a) lane s presented strange =
        rw (refused_presented a lane s strange presented) refl
    run-fenced (reserve_name a p n) lane s presented strange =
        rw (refused_presented a lane s strange presented) refl
    run-fenced (reserve_generated_name a p k) lane s presented strange =
        rw (refused_presented a lane s strange presented) refl
    run-fenced (create_cell a r) lane s presented strange =
        rw (refused_presented a lane s strange presented) refl
    run-fenced (create_dir a id p n q) lane s presented strange =
        rw (refused_presented a lane s strange presented) refl
    run-fenced (move_cell a id p n) lane s presented strange =
        rw (refused_presented a lane s strange presented) refl
    run-fenced (move_dir a id p n) lane s presented strange =
        rw (refused_presented a lane s strange presented) refl
    run-fenced (set_cell_policy a id q) lane s presented strange =
        rw (refused_presented a lane s strange presented) refl
    run-fenced (set_dir_policy a id q) lane s presented strange =
        rw (refused_presented a lane s strange presented) refl
    run-fenced (delete_cell a id) lane s presented strange =
        rw (refused_presented a lane s strange presented) refl
    run-fenced (delete_dir a id) lane s presented strange =
        rw (refused_presented a lane s strange presented) refl

  -- Where `acquire_writer` gives out a lane, the new lane is held and is not the one before, no second
  -- one is given out, and no other lane is accepted.
  pub acquire_writer-excludes :
      (s t : Namespace P) (lane : WriterLane)
      → Writer.acquire_writer s ≡ (ok lane, t)
      → (require_writer lane t ≡ ok tt)
        × (lane.epoch ≢ s.writer_epoch)
        × (Writer.acquire_writer t ≡ (err writer_already_active, t))
        × ((other : WriterLane) → require_writer other t ≡ ok tt → other.epoch ≡ lane.epoch)
  unfolding Writer.acquire_writer require_writer
  acquire_writer-excludes s t lane h = elim (Bool-cases s.writer_active) [
    | inl active ↦ absurd (ground arith)
    | inr idle ↦ (
      ground arith,
      (λ same. next_u64_moves s.writer_epoch (ground arith)),
      ground arith,
      λ other accepted. ground arith,
    )
  ]
