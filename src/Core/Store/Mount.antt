-- ===== src/Core/Store/Mount.antt =====
-- The mount table: `mount`, `unmount`, `observe_mount_epoch`, `reopen`.
use Prim.Native.String.{◌++◌}
use sim_expr_tree.Prelude.{
  String, Bool, true, not, ◌&&◌, List, [], ◌∷◌, Result, ok, err, ok_or, leb, length, ◌==◌,
  string_eq, if◌then◌else◌,
}
use sim_expr_tree.Prelude.Exec.{Exec, check, modify, pure, ◌>>=◌, ◌>>◌}
use sim_expr_tree.Prelude.HashMap.{get, remove, contains_key}
use sim_expr_tree.Prelude.BTreeMap.{BTreeMap, insert, values}
use sim_expr_tree.Core.Id.{DirId}
use sim_expr_tree.Core.Store.Types.{
  TablePaths, is_table, MountEpoch, SourceEntry, DerivedEntry, ControlEntry, MountDescriptor,
  StoreError, ExprTreeStores,
}

-- `zip` and `all`: equal as far as both go
unfoldable pub agree : List String → List String → Bool
agree [] right = true
agree (x ∷ left) [] = true
agree (x ∷ left) (y ∷ right) = x == y && agree left right

unfoldable pub is_prefix_of : List String → List String → Bool
unfolding agree
is_prefix_of candidate path = leb (length candidate) (length path) && agree candidate path

-- the stores are handed back where every mount was taken
abbrev pub keep : {S F : Type 0} → Result F (Unit {0}) × S → Result F S
keep (ok _, s) = ok s
keep (err e, s) = err e

-- `?` in a sequence of checks
abbrev pub and_then : {E A B : Type 0} → Result E A → Result E B → Result E B
and_then (ok a) next = next
and_then (err e) next = err e

module _ (paths : TablePaths) where
  open paths use {TablePath, segments, is_root, to_absolute_reference, display, path_beq}

  unfoldable pub is_prefix : TablePath → TablePath → Bool
  unfolding is_prefix_of
  is_prefix candidate path = is_prefix_of (segments candidate) (segments path)

  -- `validate_mount`: a read-only Dir returns early with the same answer as the rest
  unfoldable pub validate_mount : MountDescriptor paths → Result (StoreError paths) (Unit {0})
  validate_mount descriptor =
      if is_root descriptor.path
      then err
          (StoreError.invalid_mount "root is supplied as the required root Dir, not as a mount")
      else ok tt

  -- one round of the loop of `mount`
  unfoldable pub check_existing :
      MountDescriptor paths → MountDescriptor paths → Result (StoreError paths) (Unit {0})
  unfolding is_prefix
  check_existing descriptor existing =
      if is_prefix existing.path descriptor.path
        && (is_table existing.resource && not (path_beq existing.path descriptor.path))
      then err (StoreError.table_mount_is_leaf existing.path)
      else if is_prefix descriptor.path existing.path && is_table descriptor.resource
      then err (
          StoreError.invalid_mount (
            "table mount "
            ++ display descriptor.path
            ++ " would parent existing mount "
            ++ display existing.path))
      else ok tt

  unfoldable pub check_all :
      MountDescriptor paths → List (MountDescriptor paths) → Result (StoreError paths) (Unit {0})
  unfolding check_existing
  check_all descriptor [] = ok tt
  check_all descriptor (existing ∷ rest) =
      and_then (check_existing descriptor existing) (check_all descriptor rest)

  -- the key under which the control store keeps the last epoch of a mount
  abbrev pub epoch_key : TablePath → String
  epoch_key path = "mount-epoch:" ++ display path

  module _ {E : Type 0} where
    -- `ExprTreeStores::new`
    unfoldable pub new : DirId → Result (StoreError paths) (ExprTreeStores paths E)
    new root_dir =
        if root_dir == ""
        then err StoreError.missing_root_dir
        else ok
            (record { root_dir = root_dir; source = []; control = []; derived = []; mounts = [] })

    unfoldable pub ensure_unmounted :
        MountDescriptor paths → ExprTreeStores paths E → Result (StoreError paths) (Unit {0})
    ensure_unmounted descriptor s =
        if contains_key (to_absolute_reference descriptor.path) s.mounts
        then err (StoreError.invalid_mount ("duplicate mount point " ++ display descriptor.path))
        else ok tt

    unfoldable pub put_mount :
        MountDescriptor paths → ExprTreeStores paths E → ExprTreeStores paths E
    put_mount descriptor s = record s {
      mounts = insert (to_absolute_reference descriptor.path) descriptor s.mounts;
    }

    unfoldable pub mount :
        MountDescriptor paths → Exec (ExprTreeStores paths E) (StoreError paths) (Unit {0})
    unfolding validate_mount ensure_unmounted check_all put_mount
    mount descriptor = do
      check (λ _. validate_mount descriptor)
      check (ensure_unmounted descriptor)
      check (λ s. check_all descriptor (values s.mounts))
      modify (put_mount descriptor)

    unfoldable pub drop_mount : TablePath → ExprTreeStores paths E → ExprTreeStores paths E
    drop_mount path s = record s {
      mounts = remove (to_absolute_reference path) s.mounts;
      control = remove (epoch_key path) s.control;
    }

    unfoldable pub unmount :
        TablePath → Exec (ExprTreeStores paths E) (StoreError paths) (MountDescriptor paths)
    unfolding drop_mount
    unmount path = do
      descriptor ← check (λ s.
          ok_or (StoreError.invalid_mount ("missing mount point " ++ display path))
            (get (to_absolute_reference path) s.mounts))
      modify (drop_mount path)
      pure descriptor

    unfoldable pub set_epoch :
        TablePath
        → MountEpoch
        → MountDescriptor paths
        → ExprTreeStores paths E
        → ExprTreeStores paths E
    set_epoch path epoch found s = record s {
      mounts = insert (to_absolute_reference path) (record found { epoch = epoch }) s.mounts;
      control = insert (epoch_key path) (ControlEntry.mount_epoch epoch) s.control;
    }

    unfoldable pub observe_mount_epoch :
        TablePath → MountEpoch → Exec (ExprTreeStores paths E) (StoreError paths) (Unit {0})
    unfolding set_epoch
    observe_mount_epoch path epoch = do
      found ← check (λ s.
          ok_or (StoreError.corrupt_mount ("missing mount " ++ display path))
            (get (to_absolute_reference path) s.mounts))
      modify (set_epoch path epoch found)

    -- the loop of `reopen`: the first mount that is refused ends it
    unfoldable pub mount_all :
        List (MountDescriptor paths) → Exec (ExprTreeStores paths E) (StoreError paths) (Unit {0})
    unfolding mount
    mount_all [] = pure tt
    mount_all (descriptor ∷ rest) = do mount descriptor; mount_all rest

    abbrev pub reopen_from :
        Result (StoreError paths) (ExprTreeStores paths E)
        → BTreeMap SourceEntry
        → BTreeMap (ControlEntry E)
        → BTreeMap DerivedEntry
        → List (MountDescriptor paths)
        → Result (StoreError paths) (ExprTreeStores paths E)
    reopen_from (err e) source control derived mounts = err e
    reopen_from (ok s) source control derived mounts =
        keep (mount_all mounts (record s { source = source; control = control; derived = derived }))

    unfoldable pub reopen :
        DirId
        → BTreeMap SourceEntry
        → BTreeMap (ControlEntry E)
        → BTreeMap DerivedEntry
        → List (MountDescriptor paths)
        → Result (StoreError paths) (ExprTreeStores paths E)
    unfolding new mount_all
    reopen root_dir = reopen_from (new root_dir)
