-- ===== src/Core/Store/Shadow.antt =====
-- The mount table is sound: no mount stands at the root, and no table mount, which is a leaf, lies above
-- another mount.
use Prim.Native.String.{◌++◌}
use sim_expr_tree.Prelude.{
  ok_or, found_of_ok_or, String, true, false, ◌≡◌, inl, inr, refl, sym, subst, some, List, [], ◌∷◌,
  Result, ok, err, Bool-cases, ◌==◌, string_eq, arith,
}
use sim_expr_tree.Prelude.Exec.{continue_rule, check_rule}
use sim_expr_tree.Prelude.HashMap.{get, contains_key, get-remove}
use sim_expr_tree.Prelude.BTreeMap.{BTreeMap, insert, values, get-insert}
use sim_expr_tree.Core.Id.{DirId}
use sim_expr_tree.Core.Store.Types.{
  TablePaths, is_table, MountEpoch, SourceEntry, DerivedEntry, ControlEntry, MountDescriptor,
  StoreError, ExprTreeStores,
}
use sim_expr_tree.Core.Store.Mount.{
  keep, and_then, is_prefix, validate_mount, check_existing, check_all, new, ensure_unmounted,
  mount, unmount, observe_mount_epoch, mount_all, reopen, reopen_from,
}

both_ok :
    {E : Type 0} (a b : Result E (Unit {0})) → and_then a b ≡ ok tt → (a ≡ ok tt) × (b ≡ ok tt)
both_ok (ok u) b h = (refl, h)
both_ok (err e) b h = ground arith

module _ (paths : TablePaths) where
  open paths use {TablePath, is_root, to_absolute_reference, path_beq, path_beq_iff}

  pub record IsSound (mounts : BTreeMap (MountDescriptor paths)) : Type 0 where
    -- each mount is kept under the reference of its path
    pub keyed :
        (k : String) (d : MountDescriptor paths)
        → get k mounts ≡ some d
        → k ≡ to_absolute_reference d.path
    pub below_root :
        (k : String) (d : MountDescriptor paths) → get k mounts ≡ some d → is_root d.path ≡ false
    -- a table mount lies above no other mount
    pub leaf :
        (k j : String) (d e : MountDescriptor paths)
        → get k mounts ≡ some d
        → get j mounts ≡ some e
        → is_table d.resource ≡ true
        → is_prefix paths d.path e.path ≡ true
        → k ≡ j

  -- what a passed round of the loop grants
  same_path :
      (d e : MountDescriptor paths)
      → check_existing paths d e ≡ ok tt
      → is_prefix paths e.path d.path ≡ true
      → is_table e.resource ≡ true
      → e.path ≡ d.path
  unfolding check_existing
  same_path d e passed above table = ground (arith, path_beq_iff e.path d.path)

  no_parent :
      (d e : MountDescriptor paths)
      → check_existing paths d e ≡ ok tt
      → is_prefix paths d.path e.path ≡ true
      → is_table d.resource ≡ true
      → ⊥
  unfolding check_existing
  no_parent d e passed above table = ground arith

  check_all_cons :
      (d e : MountDescriptor paths) (l : List (MountDescriptor paths))
      → check_all paths d (e ∷ l) ≡ ok tt
      → (check_existing paths d e ≡ ok tt) × (check_all paths d l ≡ ok tt)
  unfolding check_all
  check_all_cons d e l h = both_ok (check_existing paths d e) (check_all paths d l) h

  -- every mount of the table has passed its round
  checked :
      (descriptor : MountDescriptor paths) (m : BTreeMap (MountDescriptor paths))
      → check_all paths descriptor (values m) ≡ ok tt
      → (k : String) (e : MountDescriptor paths) → get k m ≡ some e
      → check_existing paths descriptor e ≡ ok tt
  unfolding get
  checked descriptor [] all k e h = ground arith
  checked descriptor ((j, d) ∷ m) all k e h =
      let (passed, rest) = check_all_cons descriptor d (values m) all in
      elim (Bool-cases (j == k)) [
        | inl same ↦
            let is_d : d ≡ e = ground arith in
            subst (λ x. check_existing paths descriptor x ≡ ok tt) is_d passed
        | inr other ↦ checked descriptor m rest k e (ground arith)
      ]

  module _ (descriptor : MountDescriptor paths) (mounts : BTreeMap (MountDescriptor paths))
      (sound : IsSound mounts) (below : is_root descriptor.path ≡ false)
      (unused : contains_key (to_absolute_reference descriptor.path) mounts ≡ false)
      (clear : (k : String) (e : MountDescriptor paths)
        → get k mounts ≡ some e
        → check_existing paths descriptor e ≡ ok tt) where
    insert_leaf :
        (key k j : String) (d e : MountDescriptor paths)
        → key ≡ to_absolute_reference descriptor.path
        → get k (insert key descriptor mounts) ≡ some d
        → get j (insert key descriptor mounts) ≡ some e
        → is_table d.resource ≡ true
        → is_prefix paths d.path e.path ≡ true
        → k ≡ j
    insert_leaf key k j d e is_key hk hj table above = ground (
      arith,
      get-insert key k descriptor mounts,
      get-insert key j descriptor mounts,
      string_eq.beq_iff key k,
      string_eq.beq_iff key j,
      sound.leaf k j d e,
      sound.keyed k d,
      clear j e,
      clear k d,
      no_parent descriptor e,
      same_path descriptor d,
    )

    insert-IsSound : IsSound (insert (to_absolute_reference descriptor.path) descriptor mounts)
    insert-IsSound =
        let key = to_absolute_reference descriptor.path in
        record {
          keyed = λ k d h.
              ground (
                arith,
                get-insert key k descriptor mounts,
                string_eq.beq_iff key k,
                sound.keyed k d,
              );
          below_root =
              λ k d h. ground (arith, get-insert key k descriptor mounts, sound.below_root k d);
          leaf = λ k j d e. insert_leaf key k j d e refl;
        }

  -- an epoch is replaced
  set_epoch-IsSound :
      (key : String) (found : MountDescriptor paths) (epoch : MountEpoch)
      (mounts : BTreeMap (MountDescriptor paths))
      → IsSound mounts
      → get key mounts ≡ some found
      → IsSound (insert key (record found { epoch = epoch }) mounts)
  set_epoch-IsSound key found epoch mounts sound at = record {
    keyed =
        λ k d h. let (d', old, path, resource) = before k d h in rw (← path) (sound.keyed k d' old);
    below_root = λ k d h.
        let (d', old, path, resource) = before k d h in rw (← path) (sound.below_root k d' old);
    leaf = λ k j d e hk hj table above.
        let (d', old, path, resource) = before k d hk in
        let (e', old', path', resource') = before j e hj in
        sound.leaf k j d' e' old old' (rw resource table) (rw (path, path') above);
  }
    where
      before :
          (k : String) (d : MountDescriptor paths)
          → get k (insert key (record found { epoch = epoch }) mounts) ≡ some d
          → (d' : MountDescriptor paths) × (get k mounts ≡ some d')
            × (d'.path ≡ d.path)
            × (d'.resource ≡ d.resource)
      before k d h = elim (Bool-cases (key == k)) [
        | inl same ↦ (
          found,
          ground (arith, string_eq.beq_iff key k),
          ground (arith, get-insert key k (record found { epoch = epoch }) mounts),
          ground (arith, get-insert key k (record found { epoch = epoch }) mounts),
        )
        | inr other ↦ (
          d,
          ground (arith, get-insert key k (record found { epoch = epoch }) mounts),
          refl,
          refl,
        )
      ]

  module _ {E : Type 0} where
    abbrev pub StoresSound : ExprTreeStores paths E → Type 0
    StoresSound s = IsSound s.mounts

    -- Mounting, accepted or refused, keeps a sound mount table sound.
    pub mount-IsSound :
        (descriptor : MountDescriptor paths) (s : ExprTreeStores paths E)
        → IsSound s.mounts
        → IsSound (mount paths descriptor s).1.mounts
    unfolding mount
    mount-IsSound descriptor s sound =
        check_rule StoresSound (validate_mount paths descriptor) s _ sound λ u valid.
          check_rule StoresSound (ensure_unmounted paths descriptor s) s _ sound λ u' unused.
            check_rule StoresSound (check_all paths descriptor (values s.mounts)) s _ sound
              λ u'' clear.
                insert-IsSound descriptor s.mounts sound (ground arith) (ground arith)
                  (checked descriptor s.mounts clear)

    pub unmount-IsSound :
        (path : TablePath) (s : ExprTreeStores paths E)
        → IsSound s.mounts
        → IsSound (unmount paths path s).1.mounts
    unfolding unmount
    unmount-IsSound path s sound =
        let key = to_absolute_reference path in
        check_rule StoresSound
          (ok_or (StoreError.invalid_mount ("missing mount point " ++ paths.display path))
            (get key s.mounts))
          s _ sound
          λ found at. record {
            keyed = λ k d h. sound.keyed k d (ground (arith, get-remove key k s.mounts));
            below_root = λ k d h. sound.below_root k d (ground (arith, get-remove key k s.mounts));
            leaf = λ k j d e hk hj.
                sound.leaf k j d e (ground (arith, get-remove key k s.mounts))
                  (ground (arith, get-remove key j s.mounts));
          }

    pub observe-IsSound :
        (path : TablePath) (epoch : MountEpoch) (s : ExprTreeStores paths E)
        → IsSound s.mounts
        → IsSound (observe_mount_epoch paths path epoch s).1.mounts
    unfolding observe_mount_epoch
    observe-IsSound path epoch s sound =
        let key = to_absolute_reference path in
        let e = StoreError.corrupt_mount ("missing mount " ++ paths.display path) in
        check_rule StoresSound (ok_or e (get key s.mounts)) s _ sound λ found at.
          set_epoch-IsSound key found epoch s.mounts sound
            (found_of_ok_or e (get key s.mounts) found at)

    mount_all-IsSound :
        (descriptors : List (MountDescriptor paths)) (s : ExprTreeStores paths E)
        → IsSound s.mounts
        → IsSound (mount_all paths descriptors s).1.mounts
    unfolding mount_all
    mount_all-IsSound [] s sound = sound
    mount_all-IsSound (d ∷ rest) s sound =
        continue_rule StoresSound (mount paths d s) (λ _. mount_all paths rest)
          (λ e _. mount-IsSound d s sound)
          (λ u _. mount_all-IsSound rest (mount paths d s).1 (mount-IsSound d s sound))

    kept_state :
        (x : Result (StoreError paths) (Unit {0}) × ExprTreeStores paths E)
        (s : ExprTreeStores paths E)
        → keep x ≡ ok s
        → x.1 ≡ s
    kept_state (ok u, t) s h = ground arith
    kept_state (err e, t) s h = ground arith

    new-IsSound :
        (root_dir : DirId) (s : ExprTreeStores paths E)
        → new paths root_dir ≡ ok s
        → IsSound s.mounts
    unfolding new get
    new-IsSound root_dir s h =
        let empty : s.mounts ≡ [] = ground arith in
        subst IsSound (sym empty) (record {
          keyed = λ k d at. ground arith;
          below_root = λ k d at. ground arith;
          leaf = λ k j d e at. ground arith;
        })

    reopen_from-IsSound :
        (r : Result (StoreError paths) (ExprTreeStores paths E)) (source : BTreeMap SourceEntry)
        (control : BTreeMap (ControlEntry E)) (derived : BTreeMap DerivedEntry)
        (descriptors : List (MountDescriptor paths)) (s : ExprTreeStores paths E)
        → ((t : ExprTreeStores paths E) → r ≡ ok t → IsSound t.mounts)
        → reopen_from paths r source control derived descriptors ≡ ok s
        → IsSound s.mounts
    reopen_from-IsSound (err e) source control derived descriptors s sound h = ground arith
    reopen_from-IsSound (ok t) source control derived descriptors s sound h =
        let t' : ExprTreeStores paths E = record t {
          source = source;
          control = control;
          derived = derived;
        } in
        subst StoresSound (kept_state (mount_all paths descriptors t') s h)
          (mount_all-IsSound descriptors t' (sound t refl))

    -- What `reopen` accepts is sound, whatever was persisted: no mount stands at the root, each is kept
    -- under the reference of its path, and no table mount lies above another mount.
    pub reopen-IsSound :
        (root_dir : DirId) (source : BTreeMap SourceEntry) (control : BTreeMap (ControlEntry E))
        (derived : BTreeMap DerivedEntry) (descriptors : List (MountDescriptor paths))
        (s : ExprTreeStores paths E)
        → reopen paths root_dir source control derived descriptors ≡ ok s
        → IsSound s.mounts
    unfolding reopen
    reopen-IsSound root_dir source control derived descriptors s h =
        reopen_from-IsSound (new paths root_dir) source control derived descriptors s
          (new-IsSound root_dir) h
