-- ===== src/Core/Namespace/Run/Reach.antt =====
-- Every session that starts from a new namespace returns from each call and ends in a valid namespace.
use sim_expr_tree.Prelude.{subst, String, Bool, ◌≡◌, refl, Option, some, List, [], ◌∷◌, Result}
use sim_expr_tree.Core.Id.{DirId}
use sim_expr_tree.Core.Errors.{NamespaceError}
use sim_expr_tree.Core.Namespace.State.{Namespace, new}
use sim_expr_tree.Core.Namespace.Valid.{IsValid, new-IsValid}
use sim_expr_tree.Core.Namespace.Keeps.Cells.{
  create_cell-IsValid, move_cell-IsValid, delete_cell-IsValid,
}
use sim_expr_tree.Core.Namespace.Keeps.Dirs.{create_dir-IsValid}
use sim_expr_tree.Core.Namespace.Keeps.Calls.{Returns, move_dir-IsValid, delete_dir-IsValid}
use sim_expr_tree.Core.Namespace.Keeps.Others.{
  acquire_writer-IsValid, release_writer-IsValid, reserve_name-IsValid,
  reserve_generated_name-IsValid, set_cell_policy-IsValid, set_dir_policy-IsValid,
}
use sim_expr_tree.Core.Namespace.Run.{
  Request, acquire_writer, release_writer, reserve_name, reserve_generated_name, create_cell,
  create_dir, move_cell, move_dir, set_cell_policy, set_dir_policy, delete_cell, delete_dir, run,
  run_all, state_after, IsAdmissible, Next, AllAdmissible,
}

module _ {P : Type 0} (legal : String → Bool) where
  -- the call returns, in a valid state
  abbrev pub Settles : Option (Namespace P) → Type 0
  Settles o = (t : Namespace P) × (o ≡ some t) × IsValid t

  Settles-of_Returns :
      {A : Type 0} (o : Option (Result NamespaceError A × Namespace P))
      → Returns (λ x. IsValid x.1) o
      → Settles (state_after o)
  Settles-of_Returns o ((r, t), e, valid) = (t, rw e, valid)

  run-IsValid :
      (request : Request P) (s : Namespace P)
      → IsValid s
      → IsAdmissible legal request s
      → Settles (run legal request s)
  unfolding run
  run-IsValid acquire_writer s v a = (_, refl, acquire_writer-IsValid s v)
  run-IsValid (release_writer lane) s v a = (_, refl, release_writer-IsValid s v lane)
  run-IsValid (reserve_name lane parent name) s v a =
      (_, refl, reserve_name-IsValid s v lane parent name)
  run-IsValid (reserve_generated_name lane parent kind) s v a =
      (_, refl, reserve_generated_name-IsValid s v legal lane parent kind)
  run-IsValid (create_cell lane request) s v a =
      (_, refl, create_cell-IsValid s v lane request a.0 a.1)
  run-IsValid (create_dir lane id parent name patch) s v a =
      (_, refl, create_dir-IsValid s v lane id parent name patch a.0 a.1)
  run-IsValid (move_cell lane id parent name) s v a =
      Settles-of_Returns _ (move_cell-IsValid s v lane id parent name)
  run-IsValid (move_dir lane id parent name) s v a =
      Settles-of_Returns _ (move_dir-IsValid s v lane id parent name)
  run-IsValid (set_cell_policy lane id patch) s v a =
      (_, refl, set_cell_policy-IsValid s v lane id patch)
  run-IsValid (set_dir_policy lane id patch) s v a =
      (_, refl, set_dir_policy-IsValid s v lane id patch)
  run-IsValid (delete_cell lane id) s v a = (_, refl, delete_cell-IsValid s v lane id)
  run-IsValid (delete_dir lane id) s v a = Settles-of_Returns _ (delete_dir-IsValid s v lane id)

  run_all-Settles :
      (requests : List (Request P)) (s : Namespace P)
      → IsValid s
      → AllAdmissible legal requests s
      → Settles (run_all legal requests s)
  unfolding run_all
  run_all-Settles [] s v a = (s, refl, v)
  run_all-Settles (request ∷ rest) s v a =
      let (t, e, v') = run-IsValid request s v a.0 in
      rw e (run_all-Settles rest t v' (subst (Next legal (AllAdmissible legal rest)) e a.1))

  -- From a new namespace, every sequence of calls in which each node is created under a directory that
  -- is there and with an identity not in use returns from all its calls, failed ones included (the
  -- walks end, no `expect` panics), and leaves a valid namespace.
  pub run_all-IsValid :
      (empty : P) (tree_id root_dir : DirId) (requests : List (Request P))
      → AllAdmissible legal requests (new empty tree_id root_dir)
      → (t : Namespace P) × (run_all legal requests (new empty tree_id root_dir) ≡ some t)
        × IsValid t
  run_all-IsValid empty tree_id root_dir requests a =
      run_all-Settles requests (new empty tree_id root_dir) (new-IsValid empty tree_id root_dir) a
