-- ===== src/Core/Namespace/Effects/Cells.antt =====
-- Cells: what `create_cell`, `move_cell` and `delete_cell` write.
use sim_expr_tree.Prelude.{
  true, false, ◌≡◌, ◌≢◌, refl, none, some, ok, string_eq, pair_eq, arith, ap, is_some,
}
use sim_expr_tree.Prelude.HashMap.{
  get, get-insert, get-remove, remove, get-insert_self, get-remove_self,
}
use sim_expr_tree.Core.Id.{CellId}
use sim_expr_tree.Core.Stamp.{next_after}
use sim_expr_tree.Core.Namespace.State.{
  Namespace, NamespaceEntry, Slot, slot_beq_iff, WriterLane, require_writer, ensure_available,
  is_available, consume_reservation, next_stamp, reserved, child, cell_of,
}
use sim_expr_tree.Core.Namespace.Create.{CellCreate, record_of, add_cell, create_cell}

module _ {P : Type 0} where
  -- what a creation of `request` has to reach from `s`
  pub record Installed (request : CellCreate P) (s t : Namespace P) : Type 0 where
    pub cell_found :
        cell_of t request.id
        ≡ some (record {
          id = request.id;
          parent = request.parent;
          name = request.name;
          kind = request.kind;
          source = request.source;
          policy_patch = request.policy_patch;
          created_at = record { revision_tick = next_after s.current; wall_time_ms = none };
        })
    pub entry_found :
        child t request.parent request.name ≡ some (NamespaceEntry.cell request.id request.kind)
    pub was_reserved : reserved s request.parent request.name ≡ true
    pub not_reserved : reserved t request.parent request.name ≡ false
    pub dirs_kept : t.dirs ≡ s.dirs
    pub cells_kept : (c : CellId) → c ≢ request.id → cell_of t c ≡ cell_of s c
    pub children_kept :
        (σ : Slot) → σ ≢ (request.parent, request.name) → get σ t.children ≡ get σ s.children
    pub reservations_kept :
        (σ : Slot)
        → σ ≢ (request.parent, request.name)
        → get σ t.reservations ≡ get σ s.reservations

  -- the state that a creation leaves
  abbrev created : CellCreate P → Namespace P → Namespace P
  created request s =
      add_cell request (record { revision_tick = next_after s.current; wall_time_ms = none })
        (record s {
          reservations = remove (request.parent, request.name) s.reservations;
          current = next_after s.current;
        })

  create_cell-inv :
      (lane : WriterLane) (request : CellCreate P) (s t : Namespace P)
      → create_cell lane request s ≡ (ok tt, t)
      → (reserved s request.parent request.name ≡ true) × (t ≡ created request s)
  unfolding create_cell consume_reservation ensure_available is_available next_stamp require_writer
  create_cell-inv lane request s t h = (ground arith, ground arith)

  created-Installed :
      (request : CellCreate P) (s : Namespace P)
      → reserved s request.parent request.name ≡ true
      → Installed request s (created request s)
  unfolding add_cell
  created-Installed request s there =
      let slot : Slot = (request.parent, request.name) in
      let made =
        record_of request (record { revision_tick = next_after s.current; wall_time_ms = none }) in
      record {
        cell_found = get-insert_self request.id made s.cells;
        entry_found = get-insert_self slot (NamespaceEntry.cell request.id request.kind) s.children;
        was_reserved = there;
        not_reserved = ap is_some (get-remove_self slot s.reservations);
        dirs_kept = refl;
        cells_kept = λ c other.
            ground (arith, get-insert request.id c made s.cells, string_eq.beq_iff request.id c);
        children_kept = λ σ other. ground (
          arith,
          get-insert slot σ (NamespaceEntry.cell request.id request.kind) s.children,
          slot_beq_iff slot σ,
        );
        reservations_kept =
            λ σ other. ground (arith, get-remove slot σ s.reservations, slot_beq_iff slot σ);
      }

  -- A cell that is created is found under its identity and under its parent and name, with the stamp
  -- after the last one. Its reservation was there and is gone; every other cell, entry and reservation
  -- and all directories are as they were.
  pub create_cell-installs :
      (lane : WriterLane) (request : CellCreate P) (s t : Namespace P)
      → create_cell lane request s ≡ (ok tt, t)
      → Installed request s t
  create_cell-installs lane request s t h =
      let (there, e) = create_cell-inv lane request s t h in
      rw e (created-Installed request s there)
