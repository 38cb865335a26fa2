-- ===== src/Core/Namespace/Keeps/Records.antt =====
-- What a change of one record does to the places, and what the guards of the operations grant.
use sim_expr_tree.Prelude.{
  true, false, ◌≡◌, ◌≢◌, ◌⊎◌, inl, inr, refl, subst, none, some, Option-cases, Bool-cases, ◌&&◌, ok,
  ◌==◌, string_eq, pair_eq, arith,
}
use sim_expr_tree.Prelude.Exec.{continue}
use sim_expr_tree.Prelude.HashMap.{
  HashMap, get, insert, remove, contains_key, get-insert, get-remove,
}
use sim_expr_tree.Core.Id.{CellId, DirId}
use sim_expr_tree.Core.Name.{NamespaceName}
use sim_expr_tree.Core.Node.{NodeKind, node_kind_eq, node_kind_beq_iff, CellRecord, DirRecord}
use sim_expr_tree.Core.Namespace.State.{
  Op, reserved, Namespace, NamespaceEntry, Slot, slot_beq_iff, ensure_parent, ensure_available,
  consume_reservation,
}
use sim_expr_tree.Core.Namespace.Move.{ensure_new_slot}
use sim_expr_tree.Core.Namespace.Valid.{IsValid, locate, both, ParentsFound, ReservedFree}

module _ {P : Type 0} (dirs : HashMap DirId (DirRecord P))
    (cells : HashMap CellId (CellRecord P)) where
  -- the record of `id` is absent, or has this kind
  abbrev pub KindFits : CellId → NodeKind → Type 0
  KindFits id kind = (r : CellRecord P) → get id cells ≡ some r → r.kind ≡ kind

  pub locate-insert_cell :
      (id : CellId) (r : CellRecord P)
      → KindFits id r.kind
      → (b : NamespaceEntry) → b ≢ NamespaceEntry.cell id r.kind
      → locate dirs (insert id r cells) b ≡ locate dirs cells b
  unfolding locate
  locate-insert_cell id r fits (NamespaceEntry.dir d) other = refl
  locate-insert_cell id r fits (NamespaceEntry.cell c kind) other =
      elim (Option-cases (get id cells)) [
        | inl absent ↦
            ground (
              arith,
              get-insert id c r cells,
              string_eq.beq_iff id c,
              node_kind_beq_iff r.kind kind,
            )
        | inr (q, found) ↦
            let same : q.kind ≡ r.kind = fits q found in
            ground (
              arith,
              get-insert id c r cells,
              string_eq.beq_iff id c,
              node_kind_beq_iff r.kind kind,
            )
      ]

  -- a record that keeps its parent, its name and its kind
  pub locate-patch_cell :
      (id : CellId) (r r' : CellRecord P)
      → get id cells ≡ some r
      → r'.parent ≡ r.parent
      → r'.name ≡ r.name
      → r'.kind ≡ r.kind
      → (b : NamespaceEntry) → locate dirs (insert id r' cells) b ≡ locate dirs cells b
  unfolding locate
  locate-patch_cell id r r' found parent name same (NamespaceEntry.dir d) = refl
  locate-patch_cell id r r' found parent name same (NamespaceEntry.cell c kind) =
      ground (arith, get-insert id c r' cells, string_eq.beq_iff id c)

  pub locate-remove_cell :
      (id : CellId) (r : CellRecord P)
      → get id cells ≡ some r
      → (b : NamespaceEntry) → b ≢ NamespaceEntry.cell id r.kind
      → locate dirs (remove id cells) b ≡ locate dirs cells b
  unfolding locate
  locate-remove_cell id r found (NamespaceEntry.dir d) other = refl
  locate-remove_cell id r found (NamespaceEntry.cell c kind) other =
      ground (arith, get-remove id c cells, string_eq.beq_iff id c, node_kind_beq_iff r.kind kind)

  pub locate_cell :
      (id : CellId) (r : CellRecord P)
      → get id cells ≡ some r
      → locate dirs cells (NamespaceEntry.cell id r.kind) ≡ some (r.parent, r.name)
  unfolding locate
  locate_cell id r found = ground (arith, node_kind_beq_iff r.kind r.kind)

  pub locate_cell_absent :
      (id : CellId) (kind : NodeKind)
      → get id cells ≡ none
      → locate dirs cells (NamespaceEntry.cell id kind) ≡ none
  unfolding locate
  locate_cell_absent id kind absent = ground arith

  pub locate-insert_dir :
      (id : DirId) (r : DirRecord P) (b : NamespaceEntry)
      → b ≢ NamespaceEntry.dir id
      → locate (insert id r dirs) cells b ≡ locate dirs cells b
  unfolding locate
  locate-insert_dir id r (NamespaceEntry.dir d) other =
      ground (arith, get-insert id d r dirs, string_eq.beq_iff id d)
  locate-insert_dir id r (NamespaceEntry.cell c kind) other = refl

  -- a record that keeps its parent and its name
  pub locate-patch_dir :
      (id : DirId) (r r' : DirRecord P)
      → get id dirs ≡ some r
      → r'.parent ≡ r.parent
      → r'.name ≡ r.name
      → (b : NamespaceEntry) → locate (insert id r' dirs) cells b ≡ locate dirs cells b
  unfolding locate
  locate-patch_dir id r r' found parent name (NamespaceEntry.dir d) =
      ground (arith, get-insert id d r' dirs, string_eq.beq_iff id d)
  locate-patch_dir id r r' found parent name (NamespaceEntry.cell c kind) = refl

  pub locate-remove_dir :
      (id : DirId) (b : NamespaceEntry)
      → b ≢ NamespaceEntry.dir id
      → locate (remove id dirs) cells b ≡ locate dirs cells b
  unfolding locate
  locate-remove_dir id (NamespaceEntry.dir d) other =
      ground (arith, get-remove id d dirs, string_eq.beq_iff id d)
  locate-remove_dir id (NamespaceEntry.cell c kind) other = refl

  pub locate_dir :
      (id : DirId) (r : DirRecord P)
      → get id dirs ≡ some r
      → locate dirs cells (NamespaceEntry.dir id) ≡ both r.parent r.name
  unfolding locate
  locate_dir id r found = ground arith

  pub locate_dir_absent :
      (id : DirId) → get id dirs ≡ none → locate dirs cells (NamespaceEntry.dir id) ≡ none
  unfolding locate
  locate_dir_absent id absent = ground arith

module _ {P : Type 0} (dirs : HashMap DirId (DirRecord P))
    (index : HashMap Slot NamespaceEntry) where
  pub ParentsFound-insert :
      (σ : Slot) (a : NamespaceEntry)
      → contains_key σ.0 dirs ≡ true
      → ParentsFound dirs index
      → ParentsFound dirs (insert σ a index)
  ParentsFound-insert σ a there found τ b h =
      ground (arith, get-insert σ τ a index, slot_beq_iff σ τ, found τ b)

  pub ParentsFound-remove :
      (σ : Slot) → ParentsFound dirs index → ParentsFound dirs (remove σ index)
  ParentsFound-remove σ found τ b h = ground (arith, get-remove σ τ index, found τ b)

module _ (reservations : HashMap Slot (Unit {0})) (index : HashMap Slot NamespaceEntry) where
  pub ReservedFree-insert :
      (σ : Slot) (a : NamespaceEntry)
      → contains_key σ reservations ≡ false
      → ReservedFree reservations index
      → ReservedFree reservations (insert σ a index)
  ReservedFree-insert σ a unreserved free τ h =
      ground (arith, get-insert σ τ a index, slot_beq_iff σ τ, free τ)

  pub ReservedFree-remove :
      (σ : Slot) → ReservedFree reservations index → ReservedFree reservations (remove σ index)
  ReservedFree-remove σ free τ h = ground (arith, get-remove σ τ index, free τ)

module _ {P : Type 0} (s : Namespace P) where
  pub parent_of_ok :
      (parent : DirId) {u : Unit}
      → ensure_parent parent s ≡ ok u
      → contains_key parent s.dirs ≡ true
  unfolding ensure_parent
  parent_of_ok parent h = ground arith

  -- the slot is neither taken nor reserved
  abbrev pub IsFree : Slot → Type 0
  IsFree σ = (get σ s.children ≡ none) × (contains_key σ s.reservations ≡ false)

  pub IsFree-of_ok :
      (parent : DirId) (name : NamespaceName) {u : Unit}
      → ensure_available parent name s ≡ ok u
      → IsFree (parent, name)
  unfolding ensure_available
  IsFree-of_ok parent name h = (ground arith, ground arith)

  pub new_slot_of_ok :
      (parent : DirId) (name : NamespaceName) (parent' : DirId) (name' : NamespaceName) {u : Unit}
      → ensure_new_slot parent name parent' name' s ≡ ok u
      → ◌≡◌ {A = Slot} (parent, name) (parent', name') ⊎ IsFree (parent', name')
  unfolding ensure_new_slot
  new_slot_of_ok parent name parent' name' h =
      elim (Bool-cases (parent == parent' && name == name')) [
        | inl same ↦
            inl (ground (arith, string_eq.beq_iff parent parent', string_eq.beq_iff name name'))
        | inr other ↦ inr (IsFree-of_ok parent' name' (ground arith))
      ]

  -- a slot given up and another taken, or the same again
  pub ReservedFree-move :
      (old new : Slot) (a b : NamespaceEntry)
      → ReservedFree s.reservations s.children
      → get old s.children ≡ some b
      → (old ≡ new) ⊎ IsFree new
      → ReservedFree s.reservations (insert new a (remove old s.children))
  ReservedFree-move old new a b valid taken free =
      ReservedFree-insert s.reservations (remove old s.children) new a (unreserved free)
        (ReservedFree-remove s.reservations s.children old valid)
    where
      unreserved : (old ≡ new) ⊎ IsFree new → contains_key new s.reservations ≡ false
      unreserved (inl same) =
          let kept : contains_key old s.reservations ≡ false = ground (arith, valid old) in
          subst (λ σ. contains_key σ s.reservations ≡ false) same kept
      unreserved (inr f) = f.1

  pub untaken :
      (old new : Slot) → (old ≡ new) ⊎ IsFree new → (old ≡ new) ⊎ (get new s.children ≡ none)
  untaken old new (inl same) = inl same
  untaken old new (inr f) = inr f.0

  -- the namespace once a reservation is used up
  abbrev pub consumed : Slot → Namespace P
  consumed σ = record s { reservations = remove σ s.reservations }

  pub consumed-IsValid : (σ : Slot) → IsValid s → IsValid (consumed σ)
  consumed-IsValid σ valid = record {
    rooted = valid.rooted;
    indexed = valid.indexed;
    cell_id = valid.cell_id;
    parent_found = valid.parent_found;
    reserved_free = λ τ h. valid.reserved_free τ (ground (arith, get-remove σ τ s.reservations));
  }

  -- what follows the use of a reservation runs on `consumed`
  pub consume_rule :
      {A : Type 0} (parent : DirId) (name : NamespaceName) (f : Unit {0} → Op P A)
      → IsValid s
      → IsValid (f tt (consumed (parent, name))).1
      → let x = consume_reservation parent name s in IsValid (continue x.0 f x.1).1
  unfolding consume_reservation
  consume_rule parent name f valid after = elim (Bool-cases (reserved s parent name)) [
    | inl held ↦ rw held after
    | inr unheld ↦ rw unheld valid
  ]
