-- ===== src/Core/Store/Types.antt =====
-- The data of the stores.
use sim_expr_tree.Prelude.{ℕ, ◌≡◌, ◌↔◌, String, Bool, true, false, Option, List, [], string_eq}
use sim_expr_tree.Prelude.BTreeMap.{BTreeMap}
use sim_expr_tree.Core.Id.{DirId}

-- sim-table-core's `TablePath`, as far as the store uses it: its segments, whether it is the root, its
-- absolute reference, its `Display` and its `PartialEq`. A path is the root exactly if it has no
-- segments, and `==` decides equality.
pub record TablePaths : Type 1 where
  pub TablePath : Type 0
  pub segments : TablePath → List String
  pub is_root : TablePath → Bool
  pub to_absolute_reference : TablePath → String
  pub display : TablePath → String
  pub path_beq : TablePath → TablePath → Bool
  pub root_iff : (p : TablePath) → (is_root p ≡ true) ↔ (segments p ≡ [])
  pub path_beq_iff : (p q : TablePath) → (path_beq p q ≡ true) ↔ (p ≡ q)

pub data BackendKind : Type 0 where
  memory filesystem database read_only mounted_namespace : BackendKind

pub data MountResource : Type 0 where
  table dir : MountResource

abbrev pub is_table : MountResource → Bool
is_table table = true
is_table dir = false

-- a `u64` generation
abbrev pub MountEpoch : Type 0
MountEpoch = ℕ

pub record SourceEntry : Type 0 where
  pub expr : String
  pub codec : Option String

pub data DerivedEntry : Type 0 where
  graph : String → DerivedEntry
  cached_value : String → DerivedEntry
  receipt : String → DerivedEntry

-- `E` is the type of resolved policies, of which the store keeps snapshots
pub data ControlEntry (E : Type 0) : Type 0 where
  counter : ℕ → ControlEntry E
  policy : E → ControlEntry E
  ui_preference : String → ControlEntry E
  mount_epoch : MountEpoch → ControlEntry E

pub data CommitPhase : Type 0 where
  prepared source_committed control_committed : CommitPhase

-- the derived order of the phases
abbrev pub phase_rank : CommitPhase → ℕ
phase_rank prepared = 0
phase_rank source_committed = 1
phase_rank control_committed = 2

pub record PendingCommit (E : Type 0) : Type 0 where
  pub source_writes : BTreeMap SourceEntry
  pub control_writes : BTreeMap (ControlEntry E)
  pub phase : CommitPhase

module _ (paths : TablePaths) where
  open paths use {TablePath, segments, is_root, to_absolute_reference, display, path_beq}

  pub record MountDescriptor : Type 0 where
    pub path : TablePath
    pub resource : MountResource
    pub backend : BackendKind
    pub epoch : MountEpoch

  pub data StoreError : Type 0 where
    missing_root_dir : StoreError
    invalid_mount : String → StoreError
    table_mount_is_leaf : TablePath → StoreError
    corrupt_mount : String → StoreError

  pub record ExprTreeStores (E : Type 0) : Type 0 where
    pub root_dir : DirId
    pub source : BTreeMap SourceEntry
    pub control : BTreeMap (ControlEntry E)
    pub derived : BTreeMap DerivedEntry
    pub mounts : BTreeMap MountDescriptor
