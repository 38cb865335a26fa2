-- ===== src/Core/Store/Laws.antt =====
-- The mount table's paths, and mounting followed by unmounting.
use sim_expr_tree.Prelude.{
  String, true, ◌≡◌, ◌≢◌, ◌↔◌, refl, none, List, [], ◌∷◌, ◌++◌, ok, string_eq, arith,
}
use sim_expr_tree.Prelude.HashMap.{get, get-remove, get-remove_self}
use sim_expr_tree.Prelude.BTreeMap.{insert, get-insert}
use sim_expr_tree.Core.Store.Types.{TablePaths, MountDescriptor, ExprTreeStores}
use sim_expr_tree.Core.Store.Mount.{
  agree, is_prefix_of, ensure_unmounted, put_mount, mount, drop_mount, unmount, epoch_key,
}

prefix_sound :
    (xs ys : List String) → is_prefix_of xs ys ≡ true → (zs : List String) × (ys ≡ xs ++ zs)
unfolding is_prefix_of agree
prefix_sound [] ys h = (ys, refl)
prefix_sound (x ∷ xs) [] h = absurd (ground arith)
prefix_sound (x ∷ xs) (y ∷ ys) h =
    let (zs, e) = prefix_sound xs ys (ground arith) in (zs, ground (arith, string_eq.beq_iff x y))

prefix_complete : (xs zs : List String) → is_prefix_of xs (xs ++ zs) ≡ true
unfolding is_prefix_of agree
prefix_complete [] zs = ground arith
prefix_complete (x ∷ xs) zs = ground (arith, string_eq.beq_iff x x, prefix_complete xs zs)

-- The test of the mount table on two sequences of segments holds exactly if the second one continues
-- the first.
pub is_prefix_of_iff :
    (xs ys : List String) → (is_prefix_of xs ys ≡ true) ↔ ((zs : List String) × (ys ≡ xs ++ zs))
is_prefix_of_iff xs ys = (prefix_sound xs ys, λ (zs, e). rw e (prefix_complete xs zs))

module _ (paths : TablePaths) {E : Type 0} where
  open paths use {to_absolute_reference}

  -- What unmounting right after mounting has to reach: the descriptor comes back, every mount is as it
  -- was, and no epoch of the path stays behind.
  pub record Undone (d : MountDescriptor paths) (s u : ExprTreeStores paths E) : Type 0 where
    pub mounts_back : (k : String) → get k u.mounts ≡ get k s.mounts
    pub no_epoch : get (epoch_key paths d.path) u.control ≡ none
    pub control_kept : (k : String) → k ≢ epoch_key paths d.path → get k u.control ≡ get k s.control
    pub source_kept : u.source ≡ s.source
    pub derived_kept : u.derived ≡ s.derived

  mount-inv :
      (d : MountDescriptor paths) (s t : ExprTreeStores paths E)
      → mount paths d s ≡ (ok tt, t)
      → (get (to_absolute_reference d.path) s.mounts ≡ none) × (t ≡ put_mount paths d s)
  unfolding mount ensure_unmounted
  mount-inv d s t h = (ground arith, ground arith)

  put-drop-Undone :
      (d : MountDescriptor paths) (s : ExprTreeStores paths E)
      → get (to_absolute_reference d.path) s.mounts ≡ none
      → Undone d s (drop_mount paths d.path (put_mount paths d s))
  unfolding drop_mount put_mount
  put-drop-Undone d s free =
      let key = to_absolute_reference d.path in
      record {
        mounts_back = λ k. ground (
          arith,
          get-remove key k (insert key d s.mounts),
          get-insert key k d s.mounts,
          string_eq.beq_iff key k,
        );
        no_epoch = get-remove_self (epoch_key paths d.path) s.control;
        control_kept = λ k other. ground (
          arith,
          get-remove (epoch_key paths d.path) k s.control,
          string_eq.beq_iff (epoch_key paths d.path) k,
        );
        source_kept = refl;
        derived_kept = refl;
      }

  unmount-found :
      (d : MountDescriptor paths) (s : ExprTreeStores paths E)
      → unmount paths d.path (put_mount paths d s)
        ≡ (ok d, drop_mount paths d.path (put_mount paths d s))
  unfolding unmount put_mount
  unmount-found d s =
      let key = to_absolute_reference d.path in
      ground (arith, get-insert key key d s.mounts, string_eq.beq_iff key key)

  -- A mount that was accepted can be undone: unmounting its path right after gives its descriptor back,
  -- with the mounts as before, the source and derived stores as before, and the control store as before
  -- but for the path's own epoch, of which nothing stays.
  pub mount-unmount :
      (d : MountDescriptor paths) (s t : ExprTreeStores paths E)
      → mount paths d s ≡ (ok tt, t)
      → (u : ExprTreeStores paths E) × (unmount paths d.path t ≡ (ok d, u)) × Undone d s u
  mount-unmount d s t h =
      let (free, e) = mount-inv d s t h in
      (
        drop_mount paths d.path (put_mount paths d s),
        rw e (unmount-found d s),
        put-drop-Undone d s free,
      )
