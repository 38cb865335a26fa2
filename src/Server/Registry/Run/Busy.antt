-- ===== src/Server/Registry/Run/Busy.antt =====
-- What is asked of a session whose operation is being evaluated outside of the lock is refused.
use sim_expr_tree.Prelude.{
  ℕ, String, Bool, true, false, ◌≡◌, refl, ap, none, Option, some, Result, ok, err, arith, ◌==◌,
  string_eq,
}
use sim_expr_tree.Prelude.Exec.{check, pure, ◌>>◌}
use sim_expr_tree.Prelude.HashMap.{contains_key}
use sim_expr_tree.Server.Model.{ServerLimits, ServerError}
use sim_expr_tree.Server.Session
use sim_expr_tree.Server.Session.{SessionRecord, Method, new_session, min}
use sim_expr_tree.Server.Session.Page.{snapshot_of}
use sim_expr_tree.Server.Registry.Held.{Held, begin_request-Held}
use sim_expr_tree.Server.Registry
use sim_expr_tree.Server.Registry.{
  Registry, expire_idle, begin_request, reserved_session, session_mut, request, stays,
  commit_method, finish_method, finish,
}
use sim_expr_tree.Server.Registry.Run.{
  snapshot, finish_commit, Call, revision, subscribe, poll_watch, cancel_watch, drain_changes,
  close_session, maintenance_tick, create_begin, create_finish, commit_local, reserve_runtime,
  finish_runtime, run,
}
use sim_expr_tree.Server.Registry.Run.Reserved.{ends, run-Held}

-- the requests of a client for a session
unfoldable pub requests : {C : Type 0} → String → Call C → Bool
requests id (snapshot tree other) = other == id
requests id (revision other) = other == id
requests id (subscribe other) = other == id
requests id (poll_watch other watch n) = other == id
requests id (cancel_watch other watch) = other == id
requests id (drain_changes other) = other == id
requests id (close_session other) = other == id
requests id (commit_local tree other expected operation kind path wall) = other == id
requests id (reserve_runtime other expected) = other == id
requests id call = false

abbrev error_of : {A : Type 0} → Result ServerError A → Option ServerError
error_of (ok value) = none
error_of (err e) = some e

-- the error that such a request is answered with
unfoldable pub refusal : {C : Type 0} → ServerLimits → Call C → Registry → Option ServerError
refusal limits (snapshot tree id) r = error_of (Registry.snapshot limits tree id r).0
refusal limits (revision id) r = error_of (Registry.revision limits id r).0
refusal limits (subscribe id) r = error_of (Registry.subscribe limits id r).0
refusal limits (poll_watch id watch n) r = error_of (Registry.poll_watch limits id watch n r).0
refusal limits (cancel_watch id watch) r = error_of (Registry.cancel_watch limits id watch r).0
refusal limits (drain_changes id) r = error_of (Registry.drain_changes limits id r).0
refusal limits (close_session id) r = error_of (Registry.close_session limits id r).0
refusal limits (commit_local tree id expected operation kind path wall) r =
    error_of (Registry.commit_local limits tree id expected operation kind path wall r).0
refusal limits (reserve_runtime id expected) r =
    error_of (Registry.reserve_runtime limits id expected r).0
refusal limits call r = none

module _ (limits : ServerLimits) (id : String) (s : SessionRecord) where
  same : (other : String) → (other == id) ≡ true → other ≡ id
  same other e = (string_eq.beq_iff other id).0 e

  refused_request :
      {A : Type 0} (method : ℕ → Method A) (r : Registry)
      → Held limits id s r
      → (request limits id method r).0 ≡ err Registry.session_busy
  unfolding request session_mut
  refused_request method r h =
      let begun = begin_request-Held limits id s r h in
      let held : contains_key id (begin_request limits r).1.in_flight ≡ true = begun.in_flight in
      rw (request, begin_request, session_mut, held) refl

  refusal-busy :
      {C : Type 0} (call : Call C) (r : Registry)
      → requests id call ≡ true
      → Held limits id s r
      → refusal limits call r ≡ some Registry.session_busy
  unfolding requests refusal Registry.snapshot Registry.revision Registry.subscribe
      Registry.poll_watch Registry.cancel_watch Registry.drain_changes Registry.commit_local
      Registry.reserve_runtime Registry.close_session begin_request
  refusal-busy (snapshot tree other) r e h =
      rw (same other e) (ap error_of (refused_request (λ tick. snapshot_of tree limits) r h))
  refusal-busy (revision other) r e h =
      rw (same other e) (ap error_of (refused_request (λ tick. check (λ t. ok t.revision)) r h))
  refusal-busy (subscribe other) r e h =
      rw (same other e) (ap error_of (refused_request (λ tick. Session.subscribe limits) r h))
  refusal-busy (poll_watch other watch n) r e h = rw (same other e) (
      ap error_of
        (refused_request (λ tick. Session.poll_watch watch (min n limits.watch_capacity)) r h))
  refusal-busy (cancel_watch other watch) r e h =
      rw (same other e) (ap error_of (refused_request (λ tick. Session.cancel_watch watch) r h))
  refusal-busy (drain_changes other) r e h =
      rw (same other e) (ap error_of (refused_request (λ tick. Session.drain_changes) r h))
  refusal-busy (close_session other) r e h =
      let held = h.in_flight in rw (same other e, Registry.close_session, held) refl
  refusal-busy (commit_local tree other expected operation kind path wall) r e h =
      rw (same other e) (
        ap error_of
          (refused_request (commit_method limits tree expected operation kind path wall) r h))
  refusal-busy (reserve_runtime other expected) r e h =
      let no_ =
        refused_request
          (λ tick. check (λ t. Registry.expect_revision expected t.revision) >> pure tick) r h in
      rw (same other e, Registry.reserve_runtime, no_) refl
  refusal-busy (maintenance_tick steps) r e h = absurd (ground arith)
  refusal-busy (create_begin nonce) r e h = absurd (ground arith)
  refusal-busy (create_finish other tick) r e h = absurd (ground arith)
  refusal-busy (finish_runtime other tick kind path wall outcome) r e h = absurd (ground arith)
  refusal-busy (finish_commit tree other tick kind path wall outcome) r e h = absurd (ground arith)

  asks-on : {C : Type 0} (call : Call C) → requests id call ≡ true → ends id call ≡ false
  unfolding requests ends
  asks-on (create_finish other tick) e = absurd (ground arith)
  asks-on (finish_runtime other tick kind path wall outcome) e = absurd (ground arith)
  asks-on (finish_commit tree other tick kind path wall outcome) e = absurd (ground arith)
  asks-on call e = refl

  -- While an operation of a session is evaluated outside of the lock, each request of a client for this session
  -- is answered with the error session-busy: a snapshot, a reading of the revision, a subscription, a poll or
  -- an end of a watch, a drain of the changes, a close, an operation on the view, and the begin of another
  -- operation of the runtime. The session is afterwards as it was, and the operation is still in flight.
  pub request-busy :
      {C : Type 0} (call : Call C) (r : Registry)
      → requests id call ≡ true
      → Held limits id s r
      → (refusal limits call r ≡ some Registry.session_busy) × Held limits id s (run limits call r)
  unfolding requests refusal
  request-busy call r asked h =
      (refusal-busy call r asked h, run-Held limits id s call r (asks-on call asked) h)
