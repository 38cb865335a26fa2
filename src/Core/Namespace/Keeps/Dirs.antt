-- ===== src/Core/Namespace/Keeps/Dirs.antt =====
-- The operations on directories keep the namespace valid.
use mathlib.Core.Path.{fun_ext}
use sim_expr_tree.Prelude.{
  true, false, ◌≡◌, ◌≢◌, ◌⊎◌, refl, subst, none, some, [], ◌∷◌, sym, string_eq, pair_eq, arith,
}
use sim_expr_tree.Prelude.Exec.{check_rule}
use sim_expr_tree.Prelude.HashMap.{
  HashMap, get, insert, remove, contains_key, get-insert, get-remove, get-insert_self,
  get-remove_self,
}
use sim_expr_tree.Core.Id.{DirId}
use sim_expr_tree.Core.Name.{NamespaceName}
use sim_expr_tree.Core.Stamp.{Stamp, next_after}
use sim_expr_tree.Core.Node.{DirRecord, child_record, rename_dir, set_dir_patch}
use sim_expr_tree.Core.Namespace.State.{
  Namespace, NamespaceEntry, Slot, slot_beq_iff, WriterLane, require_writer, ensure_available,
  next_stamp, entry_eq,
}
use sim_expr_tree.Core.Namespace.Create.{add_dir, create_dir}
use sim_expr_tree.Core.Namespace.Move.{parent_of, place_dir}
use sim_expr_tree.Core.Namespace.Delete.{has_children, drop_dir}
use sim_expr_tree.Core.Namespace.Index.{
  IsInverse, insert-IsInverse, remove-IsInverse, move-IsInverse,
}
use sim_expr_tree.Core.Namespace.Ancestry.{found_of_parent, Above, root-top}
use sim_expr_tree.Core.Namespace.Reparent.{apart_of_orphan}
use sim_expr_tree.Core.Namespace.Valid.{IsValid, locate, ParentsFound}
use sim_expr_tree.Core.Namespace.Keeps.Trees.{
  insert-IsRooted, remove-IsRooted, patch-IsRooted, parent_of_absent, found_of_key, parent_of_both,
}
use sim_expr_tree.Core.Namespace.Keeps.Records.{
  consumed, consumed-IsValid, consume_rule, ParentsFound-insert, ParentsFound-remove,
  ReservedFree-insert, ReservedFree-remove, ReservedFree-move, untaken, locate-insert_dir,
  locate-remove_dir, locate-patch_dir, locate_dir, locate_dir_absent, IsFree, IsFree-of_ok,
}

module _ {P : Type 0} (dirs : HashMap DirId (DirRecord P))
    (index : HashMap Slot NamespaceEntry) where
  -- more directories than before
  ParentsFound-grow :
      (id : DirId) (r : DirRecord P)
      → ParentsFound dirs index
      → ParentsFound (insert id r dirs) index
  ParentsFound-grow id r found σ a h = ground (arith, get-insert id σ.0 r dirs, found σ a)

-- what the test for an empty directory grants
pub no_child :
    (id : DirId) (index : HashMap Slot NamespaceEntry)
    → has_children id index ≡ false
    → (σ : Slot) (a : NamespaceEntry) → get σ index ≡ some a
    → σ.0 ≢ id
unfolding has_children get
no_child id [] none_there σ a h same = ground arith
no_child id ((τ, b) ∷ rest) none_there σ a h same =
    ground (arith, slot_beq_iff τ σ, string_eq.beq_iff τ.0 id, no_child id rest (ground arith) σ a)

module _ {P : Type 0} (s : Namespace P) (valid : IsValid s) where
  -- an absent directory stands above nothing that is there
  fresh_apart :
      (id parent : DirId)
      → get id s.dirs ≡ none
      → contains_key parent s.dirs ≡ true
      → ¬ Above (parent_of s.dirs) id parent
  fresh_apart id parent fresh there =
      let tree = valid.rooted in
      let (v, found) = found_of_key parent s.dirs there in
      let (n, deep) = tree.depth parent v found in
      apart_of_orphan s.root_dir id
        (root-top s.dirs s.root_dir tree.root_record tree.root_found tree.root_top)
        (parent_of_absent s.dirs id fresh) (λ same. ground (arith, tree.root_found)) n parent deep

  pub add_dir-IsValid :
      (id parent : DirId) (name : NamespaceName) (patch : P) (stamp : Stamp)
      → get id s.dirs ≡ none
      → contains_key parent s.dirs ≡ true
      → IsFree s (parent, name)
      → IsValid (add_dir id parent name patch stamp s)
  unfolding add_dir
  add_dir-IsValid id parent name patch stamp fresh there free =
      let r = child_record id parent name patch stamp in
      let σ : Slot = (parent, name) in
      let a = NamespaceEntry.dir id in
      record {
        rooted =
            insert-IsRooted s.root_dir s.dirs valid.rooted id r
              (λ same. ground (arith, valid.rooted.root_found)) σ refl refl there
              (fresh_apart id parent fresh there);
        indexed =
            insert-IsInverse valid.indexed a (locate-insert_dir s.dirs s.cells id r) σ
              (locate_dir_absent s.dirs s.cells id fresh)
              (locate_dir (insert id r s.dirs) s.cells id r (get-insert_self id r s.dirs)) free.0;
        cell_id = valid.cell_id;
        parent_found =
            ParentsFound-insert (insert id r s.dirs) s.children σ a
              (ground (arith, get-insert id parent r s.dirs))
              (ParentsFound-grow s.dirs s.children id r valid.parent_found);
        reserved_free =
            ReservedFree-insert s.reservations s.children σ a free.1 valid.reserved_free;
      }

  -- a directory that is not the root takes another slot, under a directory that it does not stand above
  pub place_dir-IsValid :
      (id : DirId) (found : DirRecord P) (old_parent : DirId) (old_name : NamespaceName)
      (parent : DirId) (name : NamespaceName)
      → get id s.dirs ≡ some found
      → found.parent ≡ some old_parent
      → found.name ≡ some old_name
      → id ≢ s.root_dir
      → contains_key parent s.dirs ≡ true
      → ¬ Above (parent_of s.dirs) id parent
      → ◌≡◌ {A = Slot} (old_parent, old_name) (parent, name) ⊎ IsFree s (parent, name)
      → IsValid (place_dir id found old_parent old_name parent name s)
  unfolding place_dir
  place_dir-IsValid id found old_parent old_name parent name at is_parent is_name other there apart
        free =
      let r = rename_dir parent name found in
      let old : Slot = (old_parent, old_name) in
      let new : Slot = (parent, name) in
      let a = NamespaceEntry.dir id in
      let stood : locate s.dirs s.cells a ≡ some old =
        ground (arith, locate_dir s.dirs s.cells id found at) in
      record {
        rooted =
            insert-IsRooted s.root_dir s.dirs valid.rooted id r other new
              (valid.rooted.dir_id id found at) refl there apart;
        indexed =
            move-IsInverse valid.indexed a (locate-insert_dir s.dirs s.cells id r) old new stood
              (locate_dir (insert id r s.dirs) s.cells id r (get-insert_self id r s.dirs))
              (untaken s old new free);
        cell_id = valid.cell_id;
        parent_found =
            ParentsFound-insert (insert id r s.dirs) (remove old s.children) new a
              (ground (arith, get-insert id parent r s.dirs))
              (ParentsFound-grow s.dirs (remove old s.children) id r
                (ParentsFound-remove s.dirs s.children old valid.parent_found));
        reserved_free =
            ReservedFree-move s old new a a valid.reserved_free (valid.indexed.listed a old stood)
              free;
      }

  -- no directory names an empty one as its parent
  leaf_of_empty :
      (id : DirId) → has_children id s.children ≡ false → (d : DirId) → parent_of s.dirs d ≢ some id
  leaf_of_empty id empty d up =
      let (v, found, is_parent) = found_of_parent s.dirs d id up in
      let (σ, at) =
        valid.rooted.dir_placed d v found
          (λ same. ground (arith, valid.rooted.root_found, valid.rooted.root_top)) in
      let stood : locate s.dirs s.cells (NamespaceEntry.dir d) ≡ some σ =
        ground (arith, locate_dir s.dirs s.cells d v found) in
      no_child id s.children empty σ (NamespaceEntry.dir d)
        (valid.indexed.listed (NamespaceEntry.dir d) σ stood)
        (ground (arith, parent_of_both v.parent v.name σ at))

  pub drop_dir-IsValid :
      (id : DirId) (found : DirRecord P) (parent : DirId) (name : NamespaceName)
      → get id s.dirs ≡ some found
      → found.parent ≡ some parent
      → found.name ≡ some name
      → id ≢ s.root_dir
      → has_children id s.children ≡ false
      → IsValid (drop_dir id parent name s)
  unfolding drop_dir
  drop_dir-IsValid id found parent name at is_parent is_name other empty =
      let old : Slot = (parent, name) in
      let a = NamespaceEntry.dir id in
      record {
        rooted = remove-IsRooted s.root_dir s.dirs valid.rooted id other (leaf_of_empty id empty);
        indexed =
            remove-IsInverse valid.indexed a (locate-remove_dir s.dirs s.cells id) old
              (ground (arith, locate_dir s.dirs s.cells id found at))
              (locate_dir_absent (remove id s.dirs) s.cells id (get-remove_self id s.dirs));
        cell_id = valid.cell_id;
        parent_found = λ τ b h. ground (
          arith,
          get-remove old τ s.children,
          get-remove id τ.0 s.dirs,
          string_eq.beq_iff id τ.0,
          valid.parent_found τ b,
          no_child id s.children empty τ b,
        );
        reserved_free = ReservedFree-remove s.reservations s.children old valid.reserved_free;
      }

  -- a record's patch is replaced
  pub patch_dir-IsValid :
      (id : DirId) (found : DirRecord P) (patch : P)
      → get id s.dirs ≡ some found
      → IsValid (record s { dirs = insert id (set_dir_patch patch found) s.dirs })
  patch_dir-IsValid id found patch at =
      let r = set_dir_patch patch found in
      record {
        rooted = patch-IsRooted s.root_dir s.dirs valid.rooted id found r at refl refl refl;
        indexed = subst (λ loc. IsInverse loc s.children) (sym same_places) valid.indexed;
        cell_id = valid.cell_id;
        parent_found = ParentsFound-grow s.dirs s.children id r valid.parent_found;
        reserved_free = valid.reserved_free;
      }
    where
      same_places :
          locate (insert id (set_dir_patch patch found) s.dirs) s.cells ≡ locate s.dirs s.cells
      same_places =
          fun_ext
            (locate-patch_dir s.dirs s.cells id found (set_dir_patch patch found) at refl refl)

module _ {P : Type 0} (s : Namespace P) (valid : IsValid s) (lane : WriterLane) where
  -- Creating a directory keeps the namespace valid, if its parent is there and its identity is new.
  pub create_dir-IsValid :
      (id parent : DirId) (name : NamespaceName) (patch : P)
      → get id s.dirs ≡ none
      → contains_key parent s.dirs ≡ true
      → IsValid (create_dir lane id parent name patch s).1
  unfolding create_dir next_stamp
  create_dir-IsValid id parent name patch fresh there =
      check_rule IsValid (require_writer lane s) s _ valid λ _ _.
        consume_rule s parent name _ valid (
          check_rule IsValid (ensure_available parent name s') s' _ valid' λ _ free.
            add_dir-IsValid s' valid' id parent name patch
              (record { revision_tick = next_after s.current; wall_time_ms = none }) fresh there
              (IsFree-of_ok s' parent name free))
    where
      s' : Namespace P
      s' = consumed s (parent, name)

      valid' : IsValid s'
      valid' = consumed-IsValid s (parent, name) valid
