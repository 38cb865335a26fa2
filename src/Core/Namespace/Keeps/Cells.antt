-- ===== src/Core/Namespace/Keeps/Cells.antt =====
-- The operations on cells keep the namespace valid.
use sim_expr_tree.Prelude.{
  found_of_ok_or, true, ◌≡◌, ◌⊎◌, ok_or, ok, Result, Result-cases, inl, inr, refl, none, some,
  string_eq, pair_eq, arith,
}
use sim_expr_tree.Prelude.Exec.{check_rule}
use sim_expr_tree.Prelude.HashMap.{
  get, insert, remove, contains_key, get-insert, get-remove, get-insert_self, get-remove_self,
}
use sim_expr_tree.Core.Id.{CellId, DirId}
use sim_expr_tree.Core.Name.{NamespaceName}
use sim_expr_tree.Core.Stamp.{Stamp, next_after}
use sim_expr_tree.Core.Node.{CellRecord, rename_cell}
use sim_expr_tree.Core.Errors.{NamespaceError, missing_cell}
use sim_expr_tree.Core.Namespace.State.{
  ensure_parent, Namespace, NamespaceEntry, Slot, WriterLane, require_writer, ensure_available,
  next_stamp, entry_eq,
}
use sim_expr_tree.Core.Namespace.Create.{CellCreate, add_cell, create_cell, record_of}
use sim_expr_tree.Core.Namespace.Move.{
  ensure_new_slot, place_cell, move_cell_guards, relocate_cell, move_cell,
}
use sim_expr_tree.Core.Namespace.Delete.{drop_cell, delete_cell}
use sim_expr_tree.Core.Namespace.Index.{insert-IsInverse, remove-IsInverse, move-IsInverse}
use sim_expr_tree.Core.Namespace.Valid.{IsValid}
use sim_expr_tree.Core.Namespace.Keeps.Records.{
  consumed, consumed-IsValid, consume_rule, ParentsFound-insert, ParentsFound-remove,
  ReservedFree-insert, ReservedFree-remove, ReservedFree-move, untaken, locate-insert_cell,
  locate-remove_cell, locate_cell, locate_cell_absent, parent_of_ok, IsFree, IsFree-of_ok,
  new_slot_of_ok,
}

module _ {P : Type 0} (s : Namespace P) (valid : IsValid s) where
  pub add_cell-IsValid :
      (request : CellCreate P) (stamp : Stamp)
      → get request.id s.cells ≡ none
      → contains_key request.parent s.dirs ≡ true
      → IsFree s (request.parent, request.name)
      → IsValid (add_cell request stamp s)
  unfolding add_cell
  add_cell-IsValid request stamp fresh parent free =
      let r = record_of request stamp in
      let σ : Slot = (request.parent, request.name) in
      record {
        rooted = valid.rooted;
        indexed =
            insert-IsInverse valid.indexed (NamespaceEntry.cell request.id request.kind)
              (locate-insert_cell s.dirs s.cells request.id r (λ q h. absurd (ground arith))) σ
              (locate_cell_absent s.dirs s.cells request.id request.kind fresh)
              (locate_cell s.dirs (insert request.id r s.cells) request.id r
                (get-insert_self request.id r s.cells))
              free.0;
        cell_id = λ c q h. ground (
          arith,
          get-insert request.id c r s.cells,
          string_eq.beq_iff request.id c,
          valid.cell_id c q,
        );
        parent_found =
            ParentsFound-insert s.dirs s.children σ (NamespaceEntry.cell request.id request.kind)
              parent valid.parent_found;
        reserved_free =
            ReservedFree-insert s.reservations s.children σ
              (NamespaceEntry.cell request.id request.kind) free.1 valid.reserved_free;
      }

  pub place_cell-IsValid :
      (id : CellId) (found : CellRecord P) (parent : DirId) (name : NamespaceName)
      → get id s.cells ≡ some found
      → contains_key parent s.dirs ≡ true
      → ◌≡◌ {A = Slot} (found.parent, found.name) (parent, name) ⊎ IsFree s (parent, name)
      → IsValid (place_cell id found parent name s)
  unfolding place_cell
  place_cell-IsValid id found parent name at there free =
      let a = NamespaceEntry.cell id found.kind in
      let old : Slot = (found.parent, found.name) in
      let new : Slot = (parent, name) in
      let r = rename_cell parent name found in
      let listed = valid.indexed.listed a old (locate_cell s.dirs s.cells id found at) in
      record {
        rooted = valid.rooted;
        indexed =
            move-IsInverse valid.indexed a
              (locate-insert_cell s.dirs s.cells id r (λ q h. ground arith)) old new
              (locate_cell s.dirs s.cells id found at)
              (locate_cell s.dirs (insert id r s.cells) id r (get-insert_self id r s.cells))
              (untaken s old new free);
        cell_id = λ c q h. ground (
          arith,
          get-insert id c r s.cells,
          string_eq.beq_iff id c,
          valid.cell_id c q,
          valid.cell_id id found at,
        );
        parent_found =
            ParentsFound-insert s.dirs (remove old s.children) new a there
              (ParentsFound-remove s.dirs s.children old valid.parent_found);
        reserved_free = ReservedFree-move s old new a a valid.reserved_free listed free;
      }

  pub drop_cell-IsValid :
      (id : CellId) (found : CellRecord P)
      → get id s.cells ≡ some found
      → IsValid (drop_cell id found s)
  unfolding drop_cell
  drop_cell-IsValid id found at =
      let a = NamespaceEntry.cell id found.kind in
      let old : Slot = (found.parent, found.name) in
      record {
        rooted = valid.rooted;
        indexed =
            remove-IsInverse valid.indexed a (locate-remove_cell s.dirs s.cells id found at) old
              (locate_cell s.dirs s.cells id found at)
              (locate_cell_absent s.dirs (remove id s.cells) id found.kind
                (get-remove_self id s.cells));
        cell_id = λ c q h. ground (arith, get-remove id c s.cells, valid.cell_id c q);
        parent_found = ParentsFound-remove s.dirs s.children old valid.parent_found;
        reserved_free = ReservedFree-remove s.reservations s.children old valid.reserved_free;
      }

module _ {P : Type 0} (s : Namespace P) (valid : IsValid s) (lane : WriterLane) where
  -- Creating a cell keeps the namespace valid, if its parent is there and its identity is new.
  pub create_cell-IsValid :
      (request : CellCreate P)
      → get request.id s.cells ≡ none
      → contains_key request.parent s.dirs ≡ true
      → IsValid (create_cell lane request s).1
  unfolding create_cell next_stamp
  create_cell-IsValid request fresh parent =
      check_rule IsValid (require_writer lane s) s _ valid λ _ _.
        consume_rule s request.parent request.name _ valid (
          check_rule IsValid (ensure_available request.parent request.name s') s' _ valid' λ _ free.
            add_cell-IsValid s' valid' request
              (record { revision_tick = next_after s.current; wall_time_ms = none }) fresh parent
              (IsFree-of_ok s' request.parent request.name free))
    where
      s' : Namespace P
      s' = consumed s (request.parent, request.name)

      valid' : IsValid s'
      valid' = consumed-IsValid s (request.parent, request.name) valid

  move_cell_granted :
      (id : CellId) (parent : DirId) (name : NamespaceName) (found : CellRecord P)
      → (move_cell_guards lane id parent name s).0 ≡ ok found
      → (get id s.cells ≡ some found)
        × (ensure_parent parent s ≡ ok tt)
        × (ensure_new_slot found.parent found.name parent name s ≡ ok tt)
  unfolding move_cell_guards
  move_cell_granted id parent name found h = (ground arith, ground arith, ground arith)

  pub move_cell-IsValid :
      (id : CellId) (parent : DirId) (name : NamespaceName)
      → (x : Result NamespaceError (Unit {0}) × Namespace P) × (move_cell lane id parent name s
          ≡ some x)
        × IsValid x.1
  unfolding move_cell relocate_cell next_stamp
  move_cell-IsValid id parent name =
      elim (Result-cases (move_cell_guards lane id parent name s).0) [
        | inl (e, refused) ↦ rw refused (_, refl, valid)
        | inr (found, granted) ↦
            let (at, there, free) = move_cell_granted id parent name found granted in
            let placed =
              place_cell-IsValid s valid id found parent name at (parent_of_ok s parent there)
                (new_slot_of_ok s found.parent found.name parent name free) in
            rw (granted, relocate_cell, at) (_, refl, placed)
      ]

  pub delete_cell-IsValid : (id : CellId) → IsValid (delete_cell lane id s).1
  unfolding delete_cell next_stamp
  delete_cell-IsValid id = check_rule IsValid (require_writer lane s) s _ valid λ _ _.
      check_rule IsValid (ok_or (missing_cell id) (get id s.cells)) s _ valid λ found at.
        drop_cell-IsValid s valid id found
          (found_of_ok_or (missing_cell id) (get id s.cells) found at)
