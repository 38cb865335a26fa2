-- ===== src/Core/Namespace/Keeps/Others.antt =====
-- The writer's lane, the reservations and the changes of policy leave the namespace valid.
use mathlib.Core.Path.{fun_ext}
use sim_expr_tree.Prelude.{
  found_of_ok_or, ℕ, String, Bool, ◌≡◌, refl, sym, subst, none, some, ok, err, ok_or, string_eq,
  pair_eq, arith, next_u64, Bool-cases, inl, inr, if◌then◌else◌,
}
use sim_expr_tree.Prelude.Exec.{check_rule}
use sim_expr_tree.Prelude.HashMap.{get, insert, get-insert}
use sim_expr_tree.Core.Id.{CellId, DirId}
use sim_expr_tree.Core.Name.{NamespaceName, GeneratedNameKind, generated_name}
use sim_expr_tree.Core.Node.{CellRecord, set_cell_patch}
use sim_expr_tree.Core.Errors.{missing_cell, missing_dir_record, counter_corruption}
use sim_expr_tree.Core.Checked.{new_name}
use sim_expr_tree.Core.Namespace.State.{
  Namespace, entry_eq, slot_beq_iff, WriterLane, require_writer, ensure_parent, ensure_available,
  is_available, next_stamp,
}
use sim_expr_tree.Core.Namespace.Writer.{acquire_writer, release_writer}
use sim_expr_tree.Core.Namespace.Reserve.{
  reserve, reserve_name, bump_counter, counter, reserve_generated_name,
}
use sim_expr_tree.Core.Namespace.Inherit.{set_cell_policy, set_dir_policy}
use sim_expr_tree.Core.Namespace.Valid.{IsValid}
use sim_expr_tree.Core.Namespace.Index.{IsInverse}
use sim_expr_tree.Core.Namespace.Keeps.Records.{IsFree-of_ok, locate-patch_cell}
use sim_expr_tree.Core.Namespace.Keeps.Dirs.{patch_dir-IsValid}

module _ {P : Type 0} (s : Namespace P) (valid : IsValid s) where
  -- a free slot is reserved
  pub reserve-IsValid :
      (parent : DirId) (name : NamespaceName)
      → get (parent, name) s.children ≡ none
      → IsValid (reserve parent name s).1
  unfolding reserve
  reserve-IsValid parent name free = record {
    rooted = valid.rooted;
    indexed = valid.indexed;
    cell_id = valid.cell_id;
    parent_found = valid.parent_found;
    reserved_free = λ τ h. ground (
      arith,
      get-insert (parent, name) τ tt s.reservations,
      slot_beq_iff (parent, name) τ,
      valid.reserved_free τ,
    );
  }

  pub patch_cell-IsValid :
      (id : CellId) (found : CellRecord P) (patch : P)
      → get id s.cells ≡ some found
      → IsValid (record s { cells = insert id (set_cell_patch patch found) s.cells })
  patch_cell-IsValid id found patch at = record {
    rooted = valid.rooted;
    indexed =
        subst (λ loc. IsInverse loc s.children)
          (sym (
            fun_ext (
              locate-patch_cell s.dirs s.cells id found (set_cell_patch patch found) at refl refl
                refl)))
          valid.indexed;
    cell_id = λ c q h. ground (
      arith,
      get-insert id c (set_cell_patch patch found) s.cells,
      string_eq.beq_iff id c,
      valid.cell_id c q,
      valid.cell_id id found at,
    );
    parent_found = valid.parent_found;
    reserved_free = valid.reserved_free;
  }

  pub acquire_writer-IsValid : IsValid (acquire_writer s).1
  unfolding acquire_writer
  acquire_writer-IsValid = elim (Bool-cases s.writer_active) [
    | inl held ↦ rw held valid
    | inr open_lane ↦ rw open_lane valid
  ]

  module _ (lane : WriterLane) where
    pub release_writer-IsValid : IsValid (release_writer lane s).1
    unfolding release_writer
    release_writer-IsValid = check_rule IsValid (require_writer lane s) s _ valid λ _ _. valid

    pub reserve_name-IsValid :
        (parent : DirId) (name : NamespaceName) → IsValid (reserve_name lane parent name s).1
    unfolding reserve_name
    reserve_name-IsValid parent name = check_rule IsValid (require_writer lane s) s _ valid λ _ _.
        check_rule IsValid (ensure_parent parent s) s _ valid λ _ _.
          check_rule IsValid (ensure_available parent name s) s _ valid
            λ _ free. reserve-IsValid parent name (IsFree-of_ok s parent name free).0

    pub set_cell_policy-IsValid :
        (id : CellId) (patch : P) → IsValid (set_cell_policy lane id patch s).1
    unfolding set_cell_policy next_stamp
    set_cell_policy-IsValid id patch = check_rule IsValid (require_writer lane s) s _ valid λ _ _.
        check_rule IsValid (ok_or (missing_cell id) (get id s.cells)) s _ valid λ found at.
          patch_cell-IsValid id found patch
            (found_of_ok_or (missing_cell id) (get id s.cells) found at)

    pub set_dir_policy-IsValid :
        (id : DirId) (patch : P) → IsValid (set_dir_policy lane id patch s).1
    unfolding set_dir_policy next_stamp
    set_dir_policy-IsValid id patch = check_rule IsValid (require_writer lane s) s _ valid λ _ _.
        check_rule IsValid (ok_or (missing_dir_record id) (get id s.dirs)) s _ valid λ found at.
          patch_dir-IsValid s valid id found patch
            (found_of_ok_or (missing_dir_record id) (get id s.dirs) found at)

module _ {P : Type 0} (s : Namespace P) (valid : IsValid s) (legal : String → Bool)
    (lane : WriterLane) (parent : DirId) (kind : GeneratedNameKind) where
  pub reserve_generated_name-IsValid : IsValid (reserve_generated_name legal lane parent kind s).1
  unfolding reserve_generated_name is_available
  reserve_generated_name-IsValid = check_rule IsValid (require_writer lane s) s _ valid λ _ _.
      check_rule IsValid (ensure_parent parent s) s _ valid λ _ _.
        check_rule IsValid (new_name legal (generated_name kind next)) s' _ valid λ name _.
          check_rule IsValid
            (if is_available parent name s'
              then ok tt
              else err (counter_corruption parent kind name))
            s' _ valid λ _ free. reserve-IsValid s' valid parent name (available name free)
    where
      next : ℕ
      next = next_u64 (counter s parent kind)

      s' : Namespace P
      s' = (bump_counter parent kind s).1

      available :
          (name : NamespaceName) {u : Unit {0}}
          → (if is_available parent name s'
              then ok tt
              else err (counter_corruption parent kind name))
            ≡ ok u
          → get (parent, name) s.children ≡ none
      available name h = ground arith
