-- ===== src/Core/Namespace/Keeps/Trees.antt =====
-- Adding, moving and removing one directory keep the directories a tree under the root.
use mathlib.Core.Path.{fun_ext}
use sim_expr_tree.Prelude.{
  ℕ, suc, true, ◌≡◌, ◌≢◌, inl, inr, refl, ◌∙◌, subst, Option, none, some, ◌==◌, string_eq, arith,
  Bool-cases, Option-cases, if◌then◌else◌,
}
use sim_expr_tree.Prelude.HashMap.{
  HashMap, get, insert, remove, contains_key, get-insert, get-remove, get-insert_self,
}
use sim_expr_tree.Core.Id.{DirId}
use sim_expr_tree.Core.Name.{NamespaceName}
use sim_expr_tree.Core.Node.{DirRecord}
use sim_expr_tree.Core.Namespace.State.{Slot}
use sim_expr_tree.Core.Namespace.Move.{parent_of}
use sim_expr_tree.Core.Namespace.Ancestry.{Depth, Above}
use sim_expr_tree.Core.Namespace.Reparent.{Depth-others, Depth-moved, apart_of_leaf}
use sim_expr_tree.Core.Namespace.Valid.{IsRooted, both}

module _ {P : Type 0} (dirs : HashMap DirId (DirRecord P)) (id : DirId) where
  pub parent_of-insert :
      (r : DirRecord P) (d : DirId)
      → parent_of (insert id r dirs) d ≡ (if id == d then r.parent else parent_of dirs d)
  unfolding parent_of
  parent_of-insert r d = ground (arith, get-insert id d r dirs)

  pub parent_of-remove :
      (d : DirId) → parent_of (remove id dirs) d ≡ (if id == d then none else parent_of dirs d)
  unfolding parent_of
  parent_of-remove d = ground (arith, get-remove id d dirs)

  pub parent_of_found : (r : DirRecord P) → get id dirs ≡ some r → parent_of dirs id ≡ r.parent
  unfolding parent_of
  parent_of_found r h = ground arith

  pub parent_of_absent : get id dirs ≡ none → parent_of dirs id ≡ none
  unfolding parent_of
  parent_of_absent h = ground arith

  others-insert :
      (r : DirRecord P) (d : DirId) → d ≢ id → parent_of (insert id r dirs) d ≡ parent_of dirs d
  others-insert r d other = ground (arith, parent_of-insert r d, string_eq.beq_iff id d)

  others-remove : (d : DirId) → d ≢ id → parent_of (remove id dirs) d ≡ parent_of dirs d
  others-remove d other = ground (arith, parent_of-remove d, string_eq.beq_iff id d)

pub found_of_key :
    {V : Type 0} (d : DirId) (m : HashMap DirId V)
    → contains_key d m ≡ true
    → (v : V) × (get d m ≡ some v)
found_of_key d m h = elim (Option-cases (get d m)) [
  | inl absent ↦ absurd (ground arith)
  | inr found ↦ found
]

pub parent_of_both :
    (p : Option DirId) (n : Option NamespaceName) (σ : Slot) → both p n ≡ some σ → p ≡ some σ.0
parent_of_both none n σ h = ground arith
parent_of_both (some p) none σ h = ground arith
parent_of_both (some p) (some n) σ h = ground arith

module _ {P : Type 0} (root : DirId) (dirs : HashMap DirId (DirRecord P))
    (tree : IsRooted root dirs) (id : DirId) where
  -- A record put at an identity that is not the root's, with a parent that it does not stand above.
  module _ (r : DirRecord P) (other : id ≢ root) (σ : Slot) (named : r.id ≡ id)
      (at : both r.parent r.name ≡ some σ) (there : contains_key σ.0 dirs ≡ true)
      (apart : ¬ Above (parent_of dirs) id σ.0) where
    -- the depth of the parent, and the parent of `id` from now on
    above_id :
        (v : DirRecord P) × (get σ.0 dirs ≡ some v) → (m : ℕ) × Depth (parent_of dirs) root m σ.0
    above_id (v, found) = tree.depth σ.0 v found

    parent_found : (v : DirRecord P) × (get σ.0 dirs ≡ some v)
    parent_found = found_of_key σ.0 dirs there

    new_parent : parent_of (insert id r dirs) id ≡ some σ.0
    new_parent =
        parent_of_found (insert id r dirs) id r (get-insert_self id r dirs)
        ∙ parent_of_both r.parent r.name σ at

    Depth-id : (k : ℕ) × Depth (parent_of (insert id r dirs)) root k id
    Depth-id =
        let (m, deep) = above_id parent_found in
        (suc m, (σ.0, new_parent, Depth-others root id (others-insert dirs id r) m σ.0 deep apart))

    Depth-other :
        (n : ℕ) (d : DirId)
        → Depth (parent_of dirs) root n d
        → (k : ℕ) × Depth (parent_of (insert id r dirs)) root k d
    Depth-other n d deep =
        let (m, deep') = above_id parent_found in
        Depth-moved root id (others-insert dirs id r) σ.0 m deep' apart new_parent n d deep

    pub insert-IsRooted : IsRooted root (insert id r dirs)
    insert-IsRooted = record {
      root_record = tree.root_record;
      root_found =
          ground (arith, get-insert id root r dirs, string_eq.beq_iff id root, tree.root_found);
      root_top = tree.root_top;
      dir_id =
          λ d q h. ground (arith, get-insert id d r dirs, string_eq.beq_iff id d, tree.dir_id d q);
      dir_placed = λ d q h diff. elim (Bool-cases (id == d)) [
        | inl same ↦ (σ, ground (arith, get-insert id d r dirs))
        | inr differs ↦ tree.dir_placed d q (ground (arith, get-insert id d r dirs)) diff
      ];
      depth = λ d q h. elim (Bool-cases (id == d)) [
        | inl same ↦
            subst (λ x. (k : ℕ) × Depth (parent_of (insert id r dirs)) root k x)
              ((string_eq.beq_iff id d).0 same) Depth-id
        | inr differs ↦
            let (n, deep) = tree.depth d q (ground (arith, get-insert id d r dirs)) in
            Depth-other n d deep
      ];
    }

  -- A directory that is not the root and has no children goes.
  module _ (other : id ≢ root) (leaf : (d : DirId) → parent_of dirs d ≢ some id) where
    pub remove-IsRooted : IsRooted root (remove id dirs)
    remove-IsRooted = record {
      root_record = tree.root_record;
      root_found =
          ground (arith, get-remove id root dirs, string_eq.beq_iff id root, tree.root_found);
      root_top = tree.root_top;
      dir_id = λ d q h. ground (arith, get-remove id d dirs, tree.dir_id d q);
      dir_placed = λ d q h diff. tree.dir_placed d q (kept d q h) diff;
      depth = λ d q h.
          let (n, deep) = tree.depth d q (kept d q h) in
          (
            n,
            Depth-others root id (others-remove dirs id) n d deep (
                apart_of_leaf id leaf
                  (λ same. ground (arith, get-remove id d dirs, string_eq.beq_iff id d))),
          );
    }
      where
        kept : (d : DirId) (q : DirRecord P) → get d (remove id dirs) ≡ some q → get d dirs ≡ some q
        kept d q h = ground (arith, get-remove id d dirs)

  -- A record changes, and its identity, parent and name do not.
  module _ (r r' : DirRecord P) (found : get id dirs ≡ some r) (same_id : r'.id ≡ r.id)
      (same_parent : r'.parent ≡ r.parent) (same_name : r'.name ≡ r.name) where
    same_parents : parent_of (insert id r' dirs) ≡ parent_of dirs
    same_parents = fun_ext λ d. ground (
      arith,
      parent_of-insert dirs id r' d,
      parent_of_found dirs id r found,
      string_eq.beq_iff id d,
    )

    before :
        (d : DirId) (q : DirRecord P)
        → get d (insert id r' dirs) ≡ some q
        → (p : DirRecord P) × (get d dirs ≡ some p) × (p.parent ≡ q.parent) × (p.name ≡ q.name)
    before d q h = elim (Bool-cases (id == d)) [
      | inl same ↦ (
        r,
        ground (arith, string_eq.beq_iff id d),
        ground (arith, get-insert id d r' dirs),
        ground (arith, get-insert id d r' dirs),
      )
      | inr differs ↦ (q, ground (arith, get-insert id d r' dirs), refl, refl)
    ]

    pub patch-IsRooted : IsRooted root (insert id r' dirs)
    patch-IsRooted = record {
      root_record = if id == root then r' else tree.root_record;
      root_found = ground (arith, get-insert id root r' dirs, tree.root_found);
      root_top = ground (arith, string_eq.beq_iff id root, tree.root_found, tree.root_top);
      dir_id = λ d q h. ground (
        arith,
        get-insert id d r' dirs,
        string_eq.beq_iff id d,
        tree.dir_id d q,
        tree.dir_id id r found,
      );
      dir_placed = λ d q h diff.
          let (p, old, parent, name) = before d q h in
          let (σ, at) = tree.dir_placed d p old diff in (σ, ground arith);
      depth = λ d q h.
          let (p, old, parent, name) = before d q h in rw same_parents (tree.depth d p old);
    }
