-- ===== src/Core/Namespace/Valid.antt =====
-- What every reachable namespace satisfies: the index `children` is the inverse of the places that the
-- records state, the directories form a tree under the root, and no reserved name is taken.
use sim_expr_tree.Prelude.{
  ℕ, true, ◌≡◌, ◌≢◌, refl, Option, none, some, ◌==◌, string_eq, pair_eq, arith, if◌then◌else◌,
}
use sim_expr_tree.Prelude.HashMap.{HashMap, get, contains_key}
use sim_expr_tree.Core.Id.{CellId, DirId}
use sim_expr_tree.Core.Name.{NamespaceName}
use sim_expr_tree.Core.Node
use sim_expr_tree.Core.Stamp.{initial_tick}
use sim_expr_tree.Core.Node.{NodeKind, node_kind_eq, CellRecord, DirRecord}
use sim_expr_tree.Core.Namespace.State.{Namespace, NamespaceEntry, Slot, entry_eq, new}
use sim_expr_tree.Core.Namespace.Index.{IsInverse}
use sim_expr_tree.Core.Namespace.Move.{parent_of}
use sim_expr_tree.Core.Namespace.Ancestry.{Depth}

-- the slot that a record's two options name
abbrev pub both : Option DirId → Option NamespaceName → Option Slot
both none name = none
both (some parent) none = none
both (some parent) (some name) = some (parent, name)

-- no reserved slot is in use
abbrev pub ReservedFree : HashMap Slot (Unit {0}) → HashMap Slot NamespaceEntry → Type 0
ReservedFree reservations index =
    (σ : Slot) → contains_key σ reservations ≡ true → get σ index ≡ none

module _ {P : Type 0} where
  abbrev pub dir_slot : Option (DirRecord P) → Option Slot
  dir_slot none = none
  dir_slot (some r) = both r.parent r.name

  abbrev pub cell_slot : NodeKind → Option (CellRecord P) → Option Slot
  cell_slot kind none = none
  cell_slot kind (some r) = if r.kind == kind then some (r.parent, r.name) else none

  -- where the records say that an entry stands
  unfoldable pub locate :
      HashMap DirId (DirRecord P) → HashMap CellId (CellRecord P) → NamespaceEntry → Option Slot
  locate dirs cells (NamespaceEntry.dir d) = dir_slot (get d dirs)
  locate dirs cells (NamespaceEntry.cell c kind) = cell_slot kind (get c cells)

  -- the root is there, and it alone has no parent; the records know their identities
  pub record IsRooted (root : DirId) (dirs : HashMap DirId (DirRecord P)) : Type 0 where
    pub root_record : DirRecord P
    pub root_found : get root dirs ≡ some root_record
    pub root_top : root_record.parent ≡ none
    pub dir_id : (d : DirId) (r : DirRecord P) → get d dirs ≡ some r → r.id ≡ d
    -- a directory that is not the root states a whole slot
    pub dir_placed :
        (d : DirId) (r : DirRecord P)
        → get d dirs ≡ some r
        → d ≢ root
        → (σ : Slot) × (both r.parent r.name ≡ some σ)
    pub depth :
        (d : DirId) (r : DirRecord P)
        → get d dirs ≡ some r
        → (n : ℕ) × Depth (parent_of dirs) root n d

  -- every slot in use lies under a directory that is there
  abbrev pub ParentsFound : HashMap DirId (DirRecord P) → HashMap Slot NamespaceEntry → Type 0
  ParentsFound dirs index =
      (σ : Slot) (a : NamespaceEntry) → get σ index ≡ some a → contains_key σ.0 dirs ≡ true

  pub record IsCoherent (root : DirId) (dirs : HashMap DirId (DirRecord P))
      (cells : HashMap CellId (CellRecord P)) (children : HashMap Slot NamespaceEntry)
      (reservations : HashMap Slot (Unit {0})) : Type 0 where
    pub rooted : IsRooted root dirs
    pub indexed : IsInverse (locate dirs cells) children
    pub cell_id : (c : CellId) (r : CellRecord P) → get c cells ≡ some r → r.id ≡ c
    pub parent_found : ParentsFound dirs children
    pub reserved_free : ReservedFree reservations children

  -- The writer's lane, the counters and the stamps play no part.
  abbrev pub IsValid : Namespace P → Type 0
  IsValid s = IsCoherent s.root_dir s.dirs s.cells s.children s.reservations

  nowhere :
      (empty : P) (tree_id root_dir : DirId) (a : NamespaceEntry)
      → let s = new empty tree_id root_dir in locate s.dirs s.cells a ≡ none
  unfolding new locate get
  nowhere empty tree_id root_dir (NamespaceEntry.dir d) = ground arith
  nowhere empty tree_id root_dir (NamespaceEntry.cell c kind) = refl

  -- A new namespace is valid.
  pub new-IsValid : (empty : P) (tree_id root_dir : DirId) → IsValid (new empty tree_id root_dir)
  unfolding new get
  new-IsValid empty tree_id root_dir = record {
    rooted = record {
      root_record =
          Node.root_record empty root_dir
            (record { revision_tick = initial_tick; wall_time_ms = none });
      root_found = ground (arith, string_eq.beq_iff root_dir root_dir);
      root_top = refl;
      dir_id = λ d r h. ground (arith, string_eq.beq_iff root_dir d);
      dir_placed = λ d r h other. absurd (ground (arith, string_eq.beq_iff root_dir d));
      depth = λ d r h. (0, ground (arith, string_eq.beq_iff root_dir d));
    };
    indexed = record {
      placed = λ σ a h. ground arith;
      listed = λ a σ h. absurd (ground (arith, nowhere empty tree_id root_dir a));
    };
    cell_id = λ c r h. ground arith;
    parent_found = λ σ a h. ground arith;
    reserved_free = λ σ h. ground arith;
  }
