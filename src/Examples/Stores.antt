-- ===== src/Examples/Stores.antt =====
-- The theorems on the stores, with paths that are lists of segments.
use Prim.Native.String.{◌++◌ as ◌<>◌}
use sim_expr_tree.Prelude.{
  String, Bool, true, false, ◌&&◌, ◌≡◌, ◌↔◌, refl, arith, none, List, [], ◌∷◌, ◌++◌, ok, ◌==◌,
  string_eq,
}
use sim_expr_tree.Prelude.HashMap.{get}
use sim_expr_tree.Prelude.BTreeMap.{BTreeMap, insert}
use sim_expr_tree.Core.Store.Types.{
  TablePaths, SourceEntry, ControlEntry, counter, PendingCommit, MountDescriptor, ExprTreeStores,
  memory, table, dir,
}
use sim_expr_tree.Core.Store.Mount.{
  is_prefix_of, agree, is_prefix, check_existing, check_all, validate_mount, ensure_unmounted,
  put_mount, mount, unmount, mount_all, new, reopen,
}
use sim_expr_tree.Core.Store.Commit.{
  prepare_source_control_commit, commit_source, commit_control, recover_commit,
}
use sim_expr_tree.Core.Store.Recovery.{
  IsCommitted, Stopped, fresh, source_saved, control_unsaved, recover_commit-IsCommitted,
}
use sim_expr_tree.Core.Store.Shadow.{IsSound, mount-IsSound, reopen-IsSound}
use sim_expr_tree.Core.Store.Laws.{is_prefix_of_iff, Undone, mount-unmount}

abbrev path_beq : List String → List String → Bool
path_beq [] [] = true
path_beq [] (y ∷ ys) = false
path_beq (x ∷ xs) [] = false
path_beq (x ∷ xs) (y ∷ ys) = x == y && path_beq xs ys

path_beq_iff : (p q : List String) → (path_beq p q ≡ true) ↔ (p ≡ q)
path_beq_iff [] [] = ground arith
path_beq_iff [] (y ∷ ys) = ground arith
path_beq_iff (x ∷ xs) [] = ground arith
path_beq_iff (x ∷ xs) (y ∷ ys) = ground (arith, string_eq.beq_iff x y, path_beq_iff xs ys)

abbrev is_empty : List String → Bool
is_empty [] = true
is_empty (x ∷ xs) = false

is_empty_iff : (p : List String) → (is_empty p ≡ true) ↔ (p ≡ [])
is_empty_iff p = ground arith

abbrev reference : List String → String
reference [] = ""
reference (x ∷ xs) = "/" <> (x <> reference xs)

abbrev paths : TablePaths
paths = record {
  TablePath = List String;
  segments = λ p. p;
  is_root = is_empty;
  to_absolute_reference = reference;
  display = reference;
  path_beq = path_beq;
  root_iff = is_empty_iff;
  path_beq_iff = path_beq_iff;
}

abbrev Stores : Type 0
Stores = ExprTreeStores paths String

abbrev data_dir : MountDescriptor paths
data_dir = record { path = "data" ∷ []; resource = dir; backend = memory; epoch = 1 }

abbrev data_table : MountDescriptor paths
data_table = record { path = "data" ∷ "t" ∷ []; resource = table; backend = memory; epoch = 2 }

abbrev empty : Stores
empty = record { root_dir = "root"; source = []; control = []; derived = []; mounts = [] }

abbrev mounted : List (MountDescriptor paths)
mounted = data_dir ∷ data_table ∷ []

-- both mounts are taken
abbrev stores : Stores
stores = record empty { mounts = ("/data", data_dir) ∷ ("/data/t", data_table) ∷ [] }

stores_opened : reopen paths "root" [] [] [] mounted ≡ ok stores
unfolding reopen new mount_all mount validate_mount ensure_unmounted check_all check_existing
    is_prefix is_prefix_of agree put_mount insert get
stores_opened = refl

reopen-IsSound_example : IsSound paths stores.mounts
reopen-IsSound_example = reopen-IsSound paths "root" [] [] [] mounted stores stores_opened

-- under a table, where no mount may stand
abbrev below_table : MountDescriptor paths
below_table = record { path = "data" ∷ "t" ∷ "x" ∷ []; resource = dir; backend = memory; epoch = 1 }

mount-IsSound_example : IsSound paths (mount paths below_table stores).1.mounts
mount-IsSound_example =
    mount-IsSound paths below_table stores
      (reopen-IsSound paths "root" [] [] [] mounted stores stores_opened)

abbrev beside : MountDescriptor paths
beside = record { path = "log" ∷ []; resource = table; backend = memory; epoch = 1 }

beside_mounted : mount paths beside stores ≡ (ok tt, (mount paths beside stores).1)
unfolding reopen new mount_all mount validate_mount ensure_unmounted check_all check_existing
    is_prefix is_prefix_of agree put_mount insert get
beside_mounted = refl

mount-unmount_example :
    (u : Stores) × (unmount paths ("log" ∷ []) (mount paths beside stores).1 ≡ (ok beside, u))
    × Undone paths beside stores u
mount-unmount_example =
    mount-unmount paths beside stores (mount paths beside stores).1 beside_mounted

is_prefix_of_iff_example :
    (is_prefix_of ("a" ∷ []) ("a" ∷ "b" ∷ []) ≡ true)
    ↔ ((zs : List String) × (("a" ∷ "b" ∷ []) ≡ ("a" ∷ []) ++ zs))
is_prefix_of_iff_example = is_prefix_of_iff ("a" ∷ []) ("a" ∷ "b" ∷ [])

abbrev sources : BTreeMap SourceEntry
sources = ("c1", record { expr = "(+ 1 2)"; codec = none }) ∷ []

abbrev controls : BTreeMap (ControlEntry String)
controls = ("counter:cell", counter 2) ∷ []

-- stopped after the control side was written and before its phase was saved
abbrev half : Stores × PendingCommit String
half = commit_source (stores, prepare_source_control_commit sources controls)

stopped : Stopped sources controls stores ((commit_control half).0, half.1)
unfolding commit_source prepare_source_control_commit
stopped = control_unsaved (source_saved fresh refl) refl

recover_commit-IsCommitted_example :
    IsCommitted sources controls stores (recover_commit ((commit_control half).0, half.1))
recover_commit-IsCommitted_example =
    recover_commit-IsCommitted sources controls stores ((commit_control half).0, half.1) stopped
