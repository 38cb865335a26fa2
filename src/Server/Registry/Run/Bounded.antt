-- ===== src/Server/Registry/Run/Bounded.antt =====
-- A server stays within its limits.
use sim_expr_tree.Prelude.{
  ℕ, ◌<◌, String, inl, inr, Option, List, [], ◌∷◌, Result, ok, err, arith, leb, length,
  Result-cases, Bool-cases, string_eq, saturating_add,
}
use sim_expr_tree.Prelude.Exec.{check, pure, ◌>>◌}
use sim_expr_tree.Prelude.HashMap.{get, contains_key, remove}
use sim_expr_tree.Prelude.BTreeMap.Order.{length-insert}
use sim_expr_tree.Server.Model.{ServerLimits, ServerError}
use sim_expr_tree.Server.Session
use sim_expr_tree.Server.Session.{SessionRecord, Method, new_session, min}
use sim_expr_tree.Server.Session.Page.{TreeView, snapshot_of}
use sim_expr_tree.Server.Session.Local.{LocalOperation, apply_surface_local}
use sim_expr_tree.Server.Session.Feeds.{
  SessionFits, KeepsFeeds, new_session-SessionFits, changed-SessionFits, drain_changes-KeepsFeeds,
  subscribe-KeepsFeeds, poll_watch-KeepsFeeds, cancel_watch-KeepsFeeds,
  apply_surface_local-KeepsFeeds, snapshot-KeepsFeeds,
}
use sim_expr_tree.Server.Registry.Within.{
  IsWithin, expire_idle-IsWithin, insert-SessionsFit, reserved_session-IsWithin,
  begin_request-IsWithin, request-IsWithin, close_session-IsWithin,
}
use sim_expr_tree.Server.Registry
use sim_expr_tree.Server.Registry.{
  Registry, Locked, new_registry, expire_idle, begin_request, reserved_session, session_mut,
  request, stays, is_revision_change, expect_revision, commit_method, finish_method, finish,
}
use sim_expr_tree.Server.Registry.Run.{
  snapshot, finish_commit, Call, revision, subscribe, poll_watch, cancel_watch, drain_changes,
  close_session, maintenance_tick, create_begin, create_finish, commit_local, reserve_runtime,
  finish_runtime, run, run_calls,
}

module _ (limits : ServerLimits) (positive : 0 < limits.watch_capacity) where
  create_begin-IsWithin :
      (nonce : ℕ) (r : Registry)
      → IsWithin limits positive r
      → IsWithin limits positive (Registry.create_begin limits nonce r).1
  unfolding Registry.create_begin
  create_begin-IsWithin nonce r fit =
      let begun = begin_request-IsWithin limits positive r fit in
      elim (Bool-cases (leb limits.max_sessions (length (begin_request limits r).1.sessions))) [
        | inl full ↦ rw (Registry.create_begin, full) begun
        | inr room ↦ rw (Registry.create_begin, room) begun
      ]

  create_finish-IsWithin :
      (id : String) (tick : ℕ) (r : Registry)
      → IsWithin limits positive r
      → IsWithin limits positive (Registry.create_finish limits id tick r).1
  unfolding Registry.create_finish
  create_finish-IsWithin id tick r fit =
      let expired = expire_idle-IsWithin limits positive r fit in
      let sessions = (expire_idle limits r).sessions in
      elim (Bool-cases (leb limits.max_sessions (length sessions))) [
        | inl full ↦ rw (Registry.create_finish, full) expired
        | inr room ↦
            rw (Registry.create_finish, room)
              (insert-SessionsFit limits positive id (new_session id tick) sessions expired
                (new_session-SessionFits limits positive id tick)
                (ground (arith, length-insert id (new_session id tick) sessions expired.ascending)))
      ]

  commit_method-KeepsFeeds :
      {C : Type 0} (tree : TreeView C) (expected : Option ℕ) (operation : LocalOperation)
      (kind : String) (path : Option String) (tick : ℕ) (wall : Option ℕ)
      → KeepsFeeds limits positive
          (commit_method limits tree expected operation kind path wall tick)
  commit_method-KeepsFeeds tree expected operation kind path tick wall s fit =
      elim (Result-cases (expect_revision expected s.revision)) [
        | inl (e, refused) ↦ rw refused fit
        | inr (t, same) ↦ rw same (elim (Result-cases (apply_surface_local operation limits s).0) [
          | inl (e, failed) ↦ rw failed applied
          | inr (moved, passed) ↦ rw passed (elim (Bool-cases moved) [
            | inl yes_ ↦ rw yes_ (
                snapshot-KeepsFeeds limits positive tree _
                  (changed-SessionFits limits positive kind path tick wall _ applied))
            | inr no_ ↦ rw no_ (snapshot-KeepsFeeds limits positive tree _ applied)
          ])
        ])
      ]
    where
      applied : SessionFits limits positive (apply_surface_local operation limits s).1
      applied = apply_surface_local-KeepsFeeds limits positive operation s fit

  reserve_runtime-IsWithin :
      (id : String) (expected : Option ℕ) (r : Registry)
      → IsWithin limits positive r
      → IsWithin limits positive (Registry.reserve_runtime limits id expected r).1
  unfolding Registry.reserve_runtime
  reserve_runtime-IsWithin id expected r fit = elim (Result-cases (request limits id method r).0) [
    | inl (e, failed) ↦ rw (Registry.reserve_runtime, failed) requested
    | inr (tick, passed) ↦ rw (Registry.reserve_runtime, passed) requested
  ]
    where
      method : ℕ → Method ℕ
      method tick = check (λ s. expect_revision expected s.revision) >> pure tick

      requested : IsWithin limits positive (request limits id method r).1
      requested =
          request-IsWithin limits positive id method
            (λ tick s good. elim (Result-cases (expect_revision expected s.revision)) [
              | inl (e, refused) ↦ rw refused good
              | inr (t, same) ↦ rw same good
            ])
            r fit

  finish_method-KeepsFeeds :
      {A B : Type 0} (answer : A → Method B) (tick : ℕ) (kind : String) (path : Option String)
      (wall : Option ℕ) (outcome : Result ServerError A)
      → ((value : A) → KeepsFeeds limits positive (answer value))
      → KeepsFeeds limits positive (finish_method limits answer tick kind path wall outcome)
  finish_method-KeepsFeeds answer tick kind path wall (err e) keeps s fit = fit
  finish_method-KeepsFeeds answer tick kind path wall (ok value) keeps s fit =
      elim (Bool-cases (is_revision_change kind)) [
        | inl yes_ ↦
            rw yes_ (keeps value _ (changed-SessionFits limits positive kind path tick wall s fit))
        | inr no_ ↦ rw no_ (keeps value s fit)
      ]

  finish-IsWithin :
      {A B : Type 0} (answer : A → Method B) (id : String) (tick : ℕ) (kind : String)
      (path : Option String) (wall : Option ℕ) (outcome : Result ServerError A) (r : Registry)
      → ((value : A) → KeepsFeeds limits positive (answer value))
      → IsWithin limits positive r
      → IsWithin limits positive (finish limits answer id tick kind path wall outcome r).1
  unfolding finish
  finish-IsWithin answer id tick kind path wall outcome r keeps fit =
      elim (Bool-cases (contains_key id r.in_flight)) [
        | inl held ↦
            rw (finish, held)
              (reserved_session-IsWithin limits positive id
                (finish_method limits answer tick kind path wall outcome)
                (finish_method-KeepsFeeds answer tick kind path wall outcome keeps)
                (record r { in_flight = remove id r.in_flight }) fit)
        | inr lost ↦ rw (finish, lost) fit
      ]

  run-IsWithin :
      {C : Type 0} (call : Call C) (r : Registry)
      → IsWithin limits positive r
      → IsWithin limits positive (run limits call r)
  unfolding run Registry.snapshot Registry.finish_commit Registry.revision Registry.subscribe
      Registry.poll_watch Registry.cancel_watch Registry.drain_changes Registry.close_session
      Registry.maintenance_tick Registry.create_begin Registry.create_finish Registry.commit_local
      Registry.reserve_runtime Registry.finish_runtime
  run-IsWithin (snapshot tree id) r fit =
      request-IsWithin limits positive id (λ tick. snapshot_of tree limits)
        (λ tick. snapshot-KeepsFeeds limits positive tree) r fit
  run-IsWithin (revision id) r fit =
      request-IsWithin limits positive id (λ tick. check (λ s. ok s.revision)) (λ tick s good. good)
        r fit
  run-IsWithin (subscribe id) r fit =
      request-IsWithin limits positive id (λ tick. Session.subscribe limits)
        (λ tick. subscribe-KeepsFeeds limits positive) r fit
  run-IsWithin (poll_watch id watch n) r fit =
      request-IsWithin limits positive id
        (λ tick. Session.poll_watch watch (min n limits.watch_capacity))
        (λ tick. poll_watch-KeepsFeeds limits positive watch (min n limits.watch_capacity)) r fit
  run-IsWithin (cancel_watch id watch) r fit =
      request-IsWithin limits positive id (λ tick. Session.cancel_watch watch)
        (λ tick. cancel_watch-KeepsFeeds limits positive watch) r fit
  run-IsWithin (drain_changes id) r fit =
      request-IsWithin limits positive id (λ tick. Session.drain_changes)
        (λ tick. drain_changes-KeepsFeeds limits positive) r fit
  run-IsWithin (close_session id) r fit = close_session-IsWithin limits positive id r fit
  run-IsWithin (maintenance_tick steps) r fit =
      expire_idle-IsWithin limits positive
        (record r { next_tick = saturating_add r.next_tick steps }) fit
  run-IsWithin (create_begin nonce) r fit = create_begin-IsWithin nonce r fit
  run-IsWithin (create_finish id tick) r fit = create_finish-IsWithin id tick r fit
  run-IsWithin (commit_local tree id expected operation kind path wall) r fit =
      request-IsWithin limits positive id
        (commit_method limits tree expected operation kind path wall)
        (λ tick. commit_method-KeepsFeeds tree expected operation kind path tick wall) r fit
  run-IsWithin (reserve_runtime id expected) r fit = reserve_runtime-IsWithin id expected r fit
  run-IsWithin (finish_runtime id tick kind path wall outcome) r fit =
      finish-IsWithin (λ value. pure value) id tick kind path wall outcome r (λ value s good. good)
        fit
  run-IsWithin (finish_commit tree id tick kind path wall outcome) r fit =
      finish-IsWithin (λ value. snapshot_of tree limits) id tick kind path wall outcome r
        (λ value. snapshot-KeepsFeeds limits positive tree) fit

  run_calls-keep :
      {C : Type 0} (calls : List (Call C)) (r : Registry)
      → IsWithin limits positive r
      → IsWithin limits positive (run_calls limits calls r)
  unfolding run_calls
  run_calls-keep [] r fit = fit
  run_calls-keep (call ∷ calls) r fit =
      run_calls-keep calls (run limits call r) (run-IsWithin call r fit)

  -- Where a feed may hold an event, a server whose clients' calls come in any order, from its beginning on,
  -- never has more sessions than its limit, no session more watches than its limit, and no feed of changes,
  -- of a session or of a watch, more events than the capacity.
  pub run_calls-IsWithin :
      {C : Type 0} (calls : List (Call C))
      → IsWithin limits positive (run_calls limits calls new_registry)
  unfolding get
  run_calls-IsWithin calls =
      run_calls-keep calls new_registry
        (record { ascending = tt; count = omega arith; rows = λ id s found. absurd (ground arith) })
