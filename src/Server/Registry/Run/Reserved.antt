-- ===== src/Server/Registry/Run/Reserved.antt =====
-- A session whose operation is being evaluated outside of the lock is left alone.
use sim_expr_tree.Prelude.{
  ℕ, String, Bool, false, ◌||◌, ◌≡◌, inl, inr, Option, List, [], ◌∷◌, Result, ok, arith, leb,
  length, Bool-cases, Result-cases, ◌==◌, string_eq, saturating_add,
}
use sim_expr_tree.Prelude.Exec.{check, pure, ◌>>◌}
use sim_expr_tree.Prelude.HashMap.{contains_key, remove, get-remove}
use sim_expr_tree.Prelude.BTreeMap.{get-insert}
use sim_expr_tree.Server.Model.{ServerLimits, ServerError}
use sim_expr_tree.Server.Session
use sim_expr_tree.Server.Session.{SessionRecord, Method, new_session, min}
use sim_expr_tree.Server.Session.Page.{snapshot_of}
use sim_expr_tree.Server.Registry.Held.{
  Held, expire_idle-Held, begin_request-Held, insert-Held, reserved_session-Held, request-Held,
  close_session-Held,
}
use sim_expr_tree.Server.Registry
use sim_expr_tree.Server.Registry.{
  Registry, expire_idle, begin_request, reserved_session, session_mut, request, stays,
  commit_method, finish_method, finish,
}
use sim_expr_tree.Server.Registry.Run.{
  snapshot, finish_commit, Call, revision, subscribe, poll_watch, cancel_watch, drain_changes,
  close_session, maintenance_tick, create_begin, create_finish, commit_local, reserve_runtime,
  finish_runtime, run, run_calls,
}

-- the calls that end the operation of a session, or make the session anew
unfoldable pub ends : {C : Type 0} → String → Call C → Bool
ends id (create_finish other tick) = other == id
ends id (finish_runtime other tick kind path wall outcome) = other == id
ends id (finish_commit tree other tick kind path wall outcome) = other == id
ends id call = false

unfoldable pub ends_any : {C : Type 0} → String → List (Call C) → Bool
unfolding ends
ends_any id [] = false
ends_any id (call ∷ calls) = ends id call || ends_any id calls

module _ (limits : ServerLimits) (id : String) (s : SessionRecord) where
  create_begin-Held :
      (nonce : ℕ) (r : Registry)
      → Held limits id s r
      → Held limits id s (Registry.create_begin limits nonce r).1
  unfolding Registry.create_begin
  create_begin-Held nonce r h =
      let begun = begin_request-Held limits id s r h in
      elim (Bool-cases (leb limits.max_sessions (length (begin_request limits r).1.sessions))) [
        | inl full ↦ rw (Registry.create_begin, full) begun
        | inr room ↦
            rw (Registry.create_begin, room)
              (record {
                ascending = begun.ascending;
                found = begun.found;
                in_flight = begun.in_flight;
              })
      ]

  create_finish-Held :
      (other : String) (tick : ℕ) (r : Registry)
      → (other == id) ≡ false
      → Held limits id s r
      → Held limits id s (Registry.create_finish limits other tick r).1
  unfolding Registry.create_finish
  create_finish-Held other tick r no_ h =
      let expired = expire_idle-Held limits id s r h in
      elim (Bool-cases (leb limits.max_sessions (length (expire_idle limits r).sessions))) [
        | inl full ↦ rw (Registry.create_finish, full) expired
        | inr room ↦
            rw (Registry.create_finish, room)
              (insert-Held limits id s other (new_session other tick) (expire_idle limits r) no_
                expired)
      ]

  reserve_runtime-Held :
      (other : String) (expected : Option ℕ) (r : Registry)
      → Held limits id s r
      → Held limits id s (Registry.reserve_runtime limits other expected r).1
  unfolding Registry.reserve_runtime
  reserve_runtime-Held other expected r h = elim (Result-cases (request limits other method r).0) [
    | inl (e, failed) ↦ rw (Registry.reserve_runtime, failed) requested
    | inr (tick, passed) ↦
        rw (Registry.reserve_runtime, passed)
          (record {
            ascending = requested.ascending;
            found = requested.found;
            in_flight = ground (
              arith,
              get-insert other id tt (request limits other method r).1.in_flight,
              requested.in_flight,
            );
          })
  ]
    where
      method : ℕ → Method ℕ
      method tick = check (λ t. Registry.expect_revision expected t.revision) >> pure tick

      requested : Held limits id s (request limits other method r).1
      requested = request-Held limits id s other method r h

  finish-Held :
      {A B : Type 0} (answer : A → Method B) (other : String) (tick : ℕ) (kind : String)
      (path : Option String) (wall : Option ℕ) (outcome : Result ServerError A) (r : Registry)
      → (other == id) ≡ false
      → Held limits id s r
      → Held limits id s (finish limits answer other tick kind path wall outcome r).1
  unfolding finish
  finish-Held answer other tick kind path wall outcome r no_ h =
      elim (Bool-cases (contains_key other r.in_flight)) [
        | inl held ↦
            rw (finish, held)
              (reserved_session-Held limits id s other
                (finish_method limits answer tick kind path wall outcome)
                (record r { in_flight = remove other r.in_flight }) no_ freed)
        | inr lost ↦ rw (finish, lost) freed
      ]
    where
      freed : Held limits id s (record r { in_flight = remove other r.in_flight })
      freed = record {
        ascending = h.ascending;
        found = h.found;
        in_flight = rw (get-remove other id r.in_flight, no_) h.in_flight;
      }

  pub run-Held :
      {C : Type 0} (call : Call C) (r : Registry)
      → ends id call ≡ false
      → Held limits id s r
      → Held limits id s (run limits call r)
  unfolding run ends Registry.snapshot Registry.finish_runtime Registry.finish_commit
      Registry.revision Registry.subscribe Registry.poll_watch Registry.cancel_watch
      Registry.drain_changes Registry.maintenance_tick Registry.commit_local
  run-Held (snapshot tree other) r e h =
      request-Held limits id s other (λ tick. snapshot_of tree limits) r h
  run-Held (revision other) r e h =
      request-Held limits id s other (λ tick. check (λ t. ok t.revision)) r h
  run-Held (subscribe other) r e h =
      request-Held limits id s other (λ tick. Session.subscribe limits) r h
  run-Held (poll_watch other watch n) r e h =
      request-Held limits id s other
        (λ tick. Session.poll_watch watch (min n limits.watch_capacity)) r h
  run-Held (cancel_watch other watch) r e h =
      request-Held limits id s other (λ tick. Session.cancel_watch watch) r h
  run-Held (drain_changes other) r e h =
      request-Held limits id s other (λ tick. Session.drain_changes) r h
  run-Held (close_session other) r e h = close_session-Held limits id s other r h
  run-Held (maintenance_tick steps) r e h =
      expire_idle-Held limits id s (record r { next_tick = saturating_add r.next_tick steps })
        (record { ascending = h.ascending; found = h.found; in_flight = h.in_flight })
  run-Held (create_begin nonce) r e h = create_begin-Held nonce r h
  run-Held (create_finish other tick) r e h = create_finish-Held other tick r e h
  run-Held (commit_local tree other expected operation kind path wall) r e h =
      request-Held limits id s other (commit_method limits tree expected operation kind path wall) r
        h
  run-Held (reserve_runtime other expected) r e h = reserve_runtime-Held other expected r h
  run-Held (finish_runtime other tick kind path wall outcome) r e h =
      finish-Held (λ value. pure value) other tick kind path wall outcome r e h
  run-Held (finish_commit tree other tick kind path wall outcome) r e h =
      finish-Held (λ value. snapshot_of tree limits) other tick kind path wall outcome r e h

  -- While an operation of a session is evaluated outside of the lock, no sequence of other calls, of this or
  -- of other clients, changes the session, removes it, lets it expire or takes its reservation: the calls in
  -- question are all but the end of that operation and the end of a creation under the same identity.
  pub run_calls-Held :
      {C : Type 0} (calls : List (Call C)) (r : Registry)
      → ends_any id calls ≡ false
      → Held limits id s r
      → Held limits id s (run_calls limits calls r)
  unfolding run_calls ends_any
  run_calls-Held [] r e h = h
  run_calls-Held (call ∷ calls) r e h =
      run_calls-Held calls (run limits call r) (ground arith) (run-Held call r (ground arith) h)
