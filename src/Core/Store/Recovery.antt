-- ===== src/Core/Store/Recovery.antt =====
-- Recovery of a commit that stopped half way.
use mathlib.Core.Bool.{false≢true}
use sim_expr_tree.Prelude.{
  Bool-cases, String, true, false, ◌≡◌, refl, ◌∙◌, ap, Option, none, some, inl, inr, string_eq,
  arith,
}
use sim_expr_tree.Prelude.HashMap.{get}
use sim_expr_tree.Prelude.BTreeMap.{BTreeMap, extend, over, last_write, get-extend}
use sim_expr_tree.Core.Id.{CellId}
use sim_expr_tree.Core.Store.Types.{
  TablePaths, SourceEntry, ControlEntry, PendingCommit, ExprTreeStores, prepared, source_committed,
}
use sim_expr_tree.Core.Store.Commit.{
  prepare_source_control_commit, is_source_committed, is_control_committed, commit_source,
  commit_control, recover_source, recover_control, recover_commit,
}

-- the store of one side after one more replay of its writes
replayed :
    {V : Type 0} (writes more : BTreeMap V) (now old : BTreeMap V) (k : String)
    → more ≡ writes
    → over (last_write k writes) (get k now) ≡ over (last_write k writes) (get k old)
    → get k (extend now more) ≡ over (last_write k writes) (get k old)
replayed writes more now old k same close =
    get-extend k now more ∙ ap (λ w. over (last_write k w) (get k now)) same ∙ close

over_idem : {V : Type 0} (w o : Option V) → over w (over w o) ≡ over w o
over_idem none o = refl
over_idem (some v) o = refl

module _ {E : Type 0} (pending : PendingCommit E) where
  phase_prepared : is_source_committed pending ≡ false → pending.phase ≡ prepared
  unfolding is_source_committed
  phase_prepared h = ground arith

  phase_between :
      is_source_committed pending ≡ true
      → is_control_committed pending ≡ false
      → pending.phase ≡ source_committed
  unfolding is_source_committed is_control_committed
  phase_between h k = ground arith

  source_done_of_control : is_control_committed pending ≡ true → is_source_committed pending ≡ true
  unfolding is_source_committed is_control_committed
  source_done_of_control h = ground arith

module _ {paths : TablePaths} {E : Type 0} where
  -- What the commit means to reach: each write of the pending record is in its store, all else is as it
  -- was, and the record says that both sides are durable.
  pub record IsCommitted (source : BTreeMap SourceEntry) (control : BTreeMap (ControlEntry E))
      (s : ExprTreeStores paths E) (x : ExprTreeStores paths E × PendingCommit E) : Type 0 where
    pub sources : (id : CellId) → get id x.0.source ≡ over (last_write id source) (get id s.source)
    pub controls :
        (key : String) → get key x.0.control ≡ over (last_write key control) (get key s.control)
    pub derived_kept : x.0.derived ≡ s.derived
    pub mounts_kept : x.0.mounts ≡ s.mounts
    pub root_kept : x.0.root_dir ≡ s.root_dir
    pub done : is_control_committed x.1 ≡ true

  -- The states in which a process that commits can stop: with none, one or both sides persisted, and
  -- with the phase of the pending record saved or still the one before.
  pub data Stopped (source : BTreeMap SourceEntry) (control : BTreeMap (ControlEntry E))
      (s : ExprTreeStores paths E) : ExprTreeStores paths E × PendingCommit E → Type 0 where
    fresh : Stopped source control s (s, prepare_source_control_commit source control)
    source_saved :
        {x : ExprTreeStores paths E × PendingCommit E}
        → Stopped source control s x
        → x.1.phase ≡ prepared
        → Stopped source control s (commit_source x)
    source_unsaved :
        {x : ExprTreeStores paths E × PendingCommit E}
        → Stopped source control s x
        → x.1.phase ≡ prepared
        → Stopped source control s ((commit_source x).0, x.1)
    control_saved :
        {x : ExprTreeStores paths E × PendingCommit E}
        → Stopped source control s x
        → x.1.phase ≡ source_committed
        → Stopped source control s (commit_control x)
    control_unsaved :
        {x : ExprTreeStores paths E × PendingCommit E}
        → Stopped source control s x
        → x.1.phase ≡ source_committed
        → Stopped source control s ((commit_control x).0, x.1)

  -- What holds at every stop: a replay of a side that is durable, or of one that is not, has one result.
  record Progress (source : BTreeMap SourceEntry) (control : BTreeMap (ControlEntry E))
      (s : ExprTreeStores paths E) (x : ExprTreeStores paths E × PendingCommit E) : Type 0 where
    source_writes : x.1.source_writes ≡ source
    control_writes : x.1.control_writes ≡ control
    source_replay :
        (id : CellId)
        → over (last_write id source) (get id x.0.source)
          ≡ over (last_write id source) (get id s.source)
    control_replay :
        (key : String)
        → over (last_write key control) (get key x.0.control)
          ≡ over (last_write key control) (get key s.control)
    source_done :
        is_source_committed x.1 ≡ true
        → (id : CellId) → get id x.0.source ≡ over (last_write id source) (get id s.source)
    control_done :
        is_control_committed x.1 ≡ true
        → (key : String) → get key x.0.control ≡ over (last_write key control) (get key s.control)
    derived_kept : x.0.derived ≡ s.derived
    mounts_kept : x.0.mounts ≡ s.mounts
    root_kept : x.0.root_dir ≡ s.root_dir

  module _ (source : BTreeMap SourceEntry) (control : BTreeMap (ControlEntry E))
      (s : ExprTreeStores paths E) where
    source-Progress :
        (x : ExprTreeStores paths E × PendingCommit E)
        → Progress source control s x
        → x.1.phase ≡ prepared
        → Progress source control s (commit_source x)
          × Progress source control s ((commit_source x).0, x.1)
    unfolding commit_source is_source_committed is_control_committed
    source-Progress x p phase =
        let now = λ (id : CellId).
          replayed source x.1.source_writes x.0.source s.source id p.source_writes
            (p.source_replay id) in
        let close = λ (id : CellId).
          ap (over (last_write id source)) (now id)
          ∙ over_idem (last_write id source) (get id s.source) in
        (
          record {
            source_writes = p.source_writes;
            control_writes = p.control_writes;
            source_replay = close;
            control_replay = p.control_replay;
            source_done = λ _. now;
            control_done = λ h. absurd (false≢true h);
            derived_kept = p.derived_kept;
            mounts_kept = p.mounts_kept;
            root_kept = p.root_kept;
          },
          record {
            source_writes = p.source_writes;
            control_writes = p.control_writes;
            source_replay = close;
            control_replay = p.control_replay;
            source_done = λ _. now;
            control_done = p.control_done;
            derived_kept = p.derived_kept;
            mounts_kept = p.mounts_kept;
            root_kept = p.root_kept;
          },
        )

    control-Progress :
        (x : ExprTreeStores paths E × PendingCommit E)
        → Progress source control s x
        → x.1.phase ≡ source_committed
        → Progress source control s (commit_control x)
          × Progress source control s ((commit_control x).0, x.1)
    unfolding commit_control is_source_committed is_control_committed
    control-Progress x p phase =
        let now = λ (key : String).
          replayed control x.1.control_writes x.0.control s.control key p.control_writes
            (p.control_replay key) in
        let close = λ (key : String).
          ap (over (last_write key control)) (now key)
          ∙ over_idem (last_write key control) (get key s.control) in
        (
          record {
            source_writes = p.source_writes;
            control_writes = p.control_writes;
            source_replay = p.source_replay;
            control_replay = close;
            source_done = λ h. p.source_done (ground arith);
            control_done = λ _. now;
            derived_kept = p.derived_kept;
            mounts_kept = p.mounts_kept;
            root_kept = p.root_kept;
          },
          record {
            source_writes = p.source_writes;
            control_writes = p.control_writes;
            source_replay = p.source_replay;
            control_replay = close;
            source_done = p.source_done;
            control_done = λ _. now;
            derived_kept = p.derived_kept;
            mounts_kept = p.mounts_kept;
            root_kept = p.root_kept;
          },
        )

    Stopped-Progress :
        {x : ExprTreeStores paths E × PendingCommit E}
        → Stopped source control s x
        → Progress source control s x
    unfolding prepare_source_control_commit is_source_committed is_control_committed
    Stopped-Progress fresh = record {
      source_writes = refl;
      control_writes = refl;
      source_replay = λ id. refl;
      control_replay = λ key. refl;
      source_done = λ h. absurd (ground arith);
      control_done = λ h. absurd (ground arith);
      derived_kept = refl;
      mounts_kept = refl;
      root_kept = refl;
    }
    Stopped-Progress (source_saved {x = x} t phase) =
        (source-Progress x (Stopped-Progress t) phase).0
    Stopped-Progress (source_unsaved {x = x} t phase) =
        (source-Progress x (Stopped-Progress t) phase).1
    Stopped-Progress (control_saved {x = x} t phase) =
        (control-Progress x (Stopped-Progress t) phase).0
    Stopped-Progress (control_unsaved {x = x} t phase) =
        (control-Progress x (Stopped-Progress t) phase).1

    recover_source-Progress :
        (x : ExprTreeStores paths E × PendingCommit E)
        → Progress source control s x
        → Progress source control s (recover_source x)
          × (is_source_committed (recover_source x).1 ≡ true)
    unfolding recover_source
    recover_source-Progress x p = elim (Bool-cases (is_source_committed x.1)) [
      | inl saved ↦ rw (saved, recover_source) (p, saved)
      | inr unsaved ↦
          rw (unsaved, recover_source) ((source-Progress x p (phase_prepared x.1 unsaved)).0, refl)
    ]

    recover_control-Progress :
        (x : ExprTreeStores paths E × PendingCommit E)
        → Progress source control s x
        → is_source_committed x.1 ≡ true
        → Progress source control s (recover_control x)
          × (is_control_committed (recover_control x).1 ≡ true)
    unfolding recover_control
    recover_control-Progress x p saved = elim (Bool-cases (is_control_committed x.1)) [
      | inl done ↦ rw (done, recover_control) (p, done)
      | inr undone ↦
          rw (undone, recover_control)
            ((control-Progress x p (phase_between x.1 saved undone)).0, refl)
    ]

  -- Wherever a commit stopped, before, between or after its two sides and with or without its phase
  -- saved, replaying the pending record commits it: each of its writes is in its store, every other
  -- source and control entry is as it was, the derived store and the mounts are untouched, and the
  -- record says that both sides are durable.
  pub recover_commit-IsCommitted :
      (source : BTreeMap SourceEntry) (control : BTreeMap (ControlEntry E))
      (s : ExprTreeStores paths E) (x : ExprTreeStores paths E × PendingCommit E)
      → Stopped source control s x
      → IsCommitted source control s (recover_commit x)
  unfolding recover_commit
  recover_commit-IsCommitted source control s x stopped =
      let (p, saved) =
        recover_source-Progress source control s x (Stopped-Progress source control s stopped) in
      let (q, done) = recover_control-Progress source control s (recover_source x) p saved in
      record {
        sources =
            q.source_done (source_done_of_control (recover_control (recover_source x)).1 done);
        controls = q.control_done done;
        derived_kept = q.derived_kept;
        mounts_kept = q.mounts_kept;
        root_kept = q.root_kept;
        done = done;
      }
