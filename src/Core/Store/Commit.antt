-- ===== src/Core/Store/Commit.antt =====
-- The source/control commit and its recovery, and the writes outside of it.
use sim_expr_tree.Prelude.{length, ℕ, String, Bool, Option, leb, string_eq, if◌then◌else◌}
use sim_expr_tree.Prelude.HashMap.{get, remove}
use sim_expr_tree.Prelude.BTreeMap.{BTreeMap, insert, extend}
use sim_expr_tree.Core.Id.{CellId}
use sim_expr_tree.Core.Store.Types.{
  MountResource, TablePaths, SourceEntry, DerivedEntry, ControlEntry, phase_rank, prepared,
  source_committed, control_committed, PendingCommit, ExprTreeStores,
}

module _ {E : Type 0} where
  unfoldable pub prepare_source_control_commit :
      BTreeMap SourceEntry → BTreeMap (ControlEntry E) → PendingCommit E
  prepare_source_control_commit source_writes control_writes = record {
    source_writes = source_writes;
    control_writes = control_writes;
    phase = prepared;
  }

  -- `PendingCommit::source_committed` and `control_committed`
  unfoldable pub is_source_committed : PendingCommit E → Bool
  is_source_committed pending = leb (phase_rank source_committed) (phase_rank pending.phase)

  unfoldable pub is_control_committed : PendingCommit E → Bool
  is_control_committed pending = leb (phase_rank control_committed) (phase_rank pending.phase)

-- A method on the stores and the pending record changes both.
module _ {paths : TablePaths} {E : Type 0} where
  unfoldable pub commit_source :
      ExprTreeStores paths E × PendingCommit E → ExprTreeStores paths E × PendingCommit E
  commit_source (s, pending) = (
    record s { source = extend s.source pending.source_writes },
    record pending { phase = source_committed },
  )

  unfoldable pub commit_control :
      ExprTreeStores paths E × PendingCommit E → ExprTreeStores paths E × PendingCommit E
  commit_control (s, pending) = (
    record s { control = extend s.control pending.control_writes },
    record pending { phase = control_committed },
  )

  unfoldable pub recover_source :
      ExprTreeStores paths E × PendingCommit E → ExprTreeStores paths E × PendingCommit E
  unfolding is_source_committed commit_source
  recover_source x = if is_source_committed x.1 then x else commit_source x

  unfoldable pub recover_control :
      ExprTreeStores paths E × PendingCommit E → ExprTreeStores paths E × PendingCommit E
  unfolding is_control_committed commit_control
  recover_control x = if is_control_committed x.1 then x else commit_control x

  unfoldable pub recover_commit :
      ExprTreeStores paths E × PendingCommit E → ExprTreeStores paths E × PendingCommit E
  unfolding recover_source recover_control
  recover_commit x = recover_control (recover_source x)

  unfoldable pub put_derived :
      CellId → DerivedEntry → ExprTreeStores paths E → ExprTreeStores paths E
  put_derived id entry s = record s { derived = insert id entry s.derived }

  unfoldable pub put_control :
      String → ControlEntry E → ExprTreeStores paths E → ExprTreeStores paths E
  put_control key entry s = record s { control = insert key entry s.control }

  -- the removed entry comes back beside the stores
  unfoldable pub remove_source :
      CellId → ExprTreeStores paths E → Option SourceEntry × ExprTreeStores paths E
  remove_source id s = (get id s.source, record s { source = remove id s.source })

  -- `source_entry`, `control_entry` and `derived_entry`
  unfoldable pub source_entry : CellId → ExprTreeStores paths E → Option SourceEntry
  source_entry id s = get id s.source

  unfoldable pub control_entry : String → ExprTreeStores paths E → Option (ControlEntry E)
  control_entry key s = get key s.control

  unfoldable pub derived_entry : CellId → ExprTreeStores paths E → Option DerivedEntry
  derived_entry id s = get id s.derived

  -- an ordinary table or directory value changes no mount: the number of mounts comes back
  unfoldable pub return_value_without_mounting : MountResource → ExprTreeStores paths E → ℕ
  return_value_without_mounting resource s = length s.mounts
