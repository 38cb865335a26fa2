-- ===== src/Server/Registry.antt =====
-- crates/sim-lib-expr-tree-server/src/server.rs and server/route.rs: the sessions of a server. The registry
-- stands behind a lock, so each stretch of code that holds it is one call here; an operation of the runtime
-- has two, before and behind the evaluation.
pub mod Within
pub mod Held
pub mod Run
use Prim.Native.String.{◌++◌}
use sim_expr_tree.Prelude.{
  ℕ, ◌-◌, String, Bool, true, false, not, ◌||◌, Option, none, some, List, [], ◌∷◌, Result, ok, err,
  ok_or, leb, length, saturating_add, ◌==◌, string_eq, nat_eq, if◌then◌else◌, is_some,
}
use sim_expr_tree.Prelude.Decimal.{decimal}
use sim_expr_tree.Prelude.Hex.{hex16}
use sim_expr_tree.Prelude.Exec.{Exec, ◌>>=◌, ◌>>◌, pure, check, modify}
use sim_expr_tree.Prelude.HashMap.{get, remove, contains_key}
use sim_expr_tree.Prelude.BTreeMap.{BTreeMap, insert, retain_entries}
use sim_expr_tree.Server.Model.{ServerError, new_error, ServerLimits, WatchBatch, ChangeEvent}
use sim_expr_tree.Server.Session
use sim_expr_tree.Server.Session.{SessionRecord, Method, new_session, min}
use sim_expr_tree.Server.Session.Page.{TreeView, Node, CellDetail, node_revision, snapshot_of}
use sim_expr_tree.Server.Session.Local.{LocalOperation, apply_surface_local, require}

pub record Registry : Type 0 where
  pub sessions : BTreeMap SessionRecord
  pub in_flight : BTreeMap (Unit {0})
  pub next_session : ℕ
  pub next_tick : ℕ

-- the registry of `ExpressionTreeServer::new`
abbrev pub new_registry : Registry
new_registry = record { sessions = []; in_flight = []; next_session = 1; next_tick = 1 }

abbrev pub Locked : Type 0 → Type 0
Locked A = Exec Registry ServerError A

abbrev pub unknown_session : ServerError
unknown_session =
    new_error "unknown-session"
      "session is absent, expired, cancelled, or belongs to another server"

abbrev pub session_busy : ServerError
session_busy = new_error "session-busy" "another operation is already evaluating for this session"

unfoldable pub stale : ℕ → ℕ → ServerError
stale expected current =
    new_error "stale-revision"
      ("expected revision " ++ (decimal expected ++ (", current revision is " ++ decimal current)))

abbrev pub is_revision_change : String → Bool
is_revision_change kind = not (
    kind == "ref"
    || (kind == "list" || (kind == "status" || (kind == "explain" || kind == "open-policy"))))

-- the revision that a commit expects, where it names one
abbrev pub expect_revision : Option ℕ → ℕ → Result ServerError (Unit {0})
expect_revision none current = ok tt
expect_revision (some expected) current = require (expected == current) (stale expected current)

module _ (limits : ServerLimits) where
  -- a session is kept while it is in flight, or for as long as it may be idle
  abbrev pub stays : Registry → String → SessionRecord → Bool
  stays r id session =
      contains_key id r.in_flight
      || leb (r.next_tick - session.last_activity_tick) limits.max_idle_ticks

  unfoldable pub expire_idle : Registry → Registry
  expire_idle r = record r { sessions = retain_entries (stays r) r.sessions }

  unfoldable pub begin_request : Locked ℕ
  unfolding expire_idle
  begin_request r =
      (ok r.next_tick, expire_idle (record r { next_tick = saturating_add r.next_tick 1 }))

  -- a method of a session that is found under its identity, `reserved_session_mut`
  unfoldable pub reserved_session : {A : Type 0} → String → Method A → Locked A
  reserved_session id method r = elim (get id r.sessions) [
    | none ↦ (err unknown_session, r)
    | some s ↦
        let (answer, t) = method s in (answer, record r { sessions = insert id t r.sessions })
  ]

  -- the same where no operation is in flight, `session_mut`
  unfoldable pub session_mut : {A : Type 0} → String → Method A → Locked A
  unfolding reserved_session
  session_mut id method = do
    check (λ r. require (not (contains_key id r.in_flight)) session_busy)
    reserved_session id method

  -- a request for one session, which counts as its activity
  unfoldable pub request : {A : Type 0} → String → (ℕ → Method A) → Locked A
  unfolding begin_request session_mut
  request id method = do
    tick ← begin_request
    session_mut id (modify (λ s. record s { last_activity_tick = tick }) >> method tick)

  unfoldable pub snapshot : {C : Type 0} → TreeView C → String → Locked (Node (CellDetail C))
  unfolding request
  snapshot tree id = request id (λ tick. snapshot_of tree limits)

  -- `apply_intent` up to the decoding of the intent, which is then committed by `commit_local` or by the
  -- two halves of an operation of the runtime
  unfoldable pub apply_intent_begin : {C : Type 0} → TreeView C → String → ℕ → Locked (Unit {0})
  unfolding snapshot
  apply_intent_begin tree id expected = do
    root ← snapshot tree id
    check (λ _. expect_revision (some expected) (node_revision root))

  unfoldable pub revision : String → Locked ℕ
  unfolding request
  revision id = request id (λ tick. check (λ s. ok s.revision))

  unfoldable pub subscribe : String → Locked String
  unfolding request
  subscribe id = request id (λ tick. Session.subscribe limits)

  unfoldable pub poll_watch : String → String → ℕ → Locked WatchBatch
  unfolding request
  poll_watch id watch limit =
      request id (λ tick. Session.poll_watch watch (min limit limits.watch_capacity))

  unfoldable pub cancel_watch : String → String → Locked (Unit {0})
  unfolding request
  cancel_watch id watch = request id (λ tick. Session.cancel_watch watch)

  unfoldable pub drain_changes : String → Locked (List ChangeEvent)
  unfolding request
  drain_changes id = request id (λ tick. Session.drain_changes)

  unfoldable pub close_session : String → Locked Bool
  unfolding begin_request
  close_session id = do
    _ ← begin_request
    check (λ r. require (not (contains_key id r.in_flight)) session_busy)
    is_there ← check (λ r. ok (contains_key id r.sessions))
    modify (λ r. record r { sessions = remove id r.sessions })
    pure is_there

  unfoldable pub maintenance_tick : ℕ → Locked ℕ
  unfolding expire_idle
  maintenance_tick steps r =
      let after = expire_idle (record r { next_tick = saturating_add r.next_tick steps }) in
      (ok (length r.sessions - length after.sessions), after)

  -- the first half of `create_session`, before the tree is opened
  unfoldable pub create_begin : ℕ → Locked (String × ℕ)
  unfolding begin_request
  create_begin nonce = do
    tick ← begin_request
    check (λ r. require (not (leb limits.max_sessions (length r.sessions))) (
        new_error "session-limit"
          ("server session limit " ++ (decimal limits.max_sessions ++ " reached"))))
    id ← check (λ r. ok (hex16 nonce ++ ("-" ++ hex16 r.next_session)))
    modify (λ r. record r { next_session = saturating_add r.next_session 1 })
    pure (id, tick)

  -- the second half, behind it
  unfoldable pub create_finish : String → ℕ → Locked String
  unfolding expire_idle new_session
  create_finish id tick = do
    modify expire_idle
    check (λ r.
        require (not (leb limits.max_sessions (length r.sessions)))
          (new_error "session-limit" "session capacity changed while opening the tree"))
    modify (λ r. record r { sessions = insert id (new_session id tick) r.sessions })
    pure id

  -- `commit_surface_operation` for an operation on the view, with what is read from the tree
  -- for the snapshot that answers it
  abbrev pub commit_method :
      {C : Type 0}
      → TreeView C
      → Option ℕ
      → LocalOperation
      → String
      → Option String
      → Option ℕ
      → ℕ
      → Method (Node (CellDetail C))
  commit_method tree expected operation kind path wall tick = do
    check (λ s. expect_revision expected s.revision)
    moved ← apply_surface_local operation limits
    modify (λ s. if moved then Session.changed kind path tick wall limits s else s)
    snapshot_of tree limits

  unfoldable pub commit_local :
      {C : Type 0}
      → TreeView C
      → String
      → Option ℕ
      → LocalOperation
      → String
      → Option String
      → Option ℕ
      → Locked (Node (CellDetail C))
  unfolding request
  commit_local tree id expected operation kind path wall =
      request id (commit_method tree expected operation kind path wall)

  -- `reserve_runtime`: the session is in flight from here on
  unfoldable pub reserve_runtime : String → Option ℕ → Locked ℕ
  unfolding request
  reserve_runtime id expected = do
    tick ← request id (λ tick. check (λ s. expect_revision expected s.revision) >> pure tick)
    modify (λ r. record r { in_flight = insert id tt r.in_flight })
    pure tick

  -- the end of an operation of the runtime: the change is recorded, and the answer made
  abbrev pub finish_method :
      {A B : Type 0}
      → (A → Method B)
      → ℕ
      → String
      → Option String
      → Option ℕ
      → Result ServerError A
      → Method B
  finish_method answer tick kind path wall outcome = do
    value ← check (λ _. outcome)
    modify
        (λ s. if is_revision_change kind then Session.changed kind path tick wall limits s else s)
    answer value

  unfoldable pub finish :
      {A B : Type 0}
      → (A → Method B)
      → String
      → ℕ
      → String
      → Option String
      → Option ℕ
      → Result ServerError A
      → Locked B
  unfolding reserved_session
  finish answer id tick kind path wall outcome = do
    reserved ← check (λ r. ok (contains_key id r.in_flight))
    modify (λ r. record r { in_flight = remove id r.in_flight })
    check (λ _.
        require reserved (new_error "internal" "runtime operation lost its session reservation"))
    reserved_session id (finish_method answer tick kind path wall outcome)

  -- `execute_direct_operation` behind the evaluation, with its outcome; the value is the answer
  unfoldable pub finish_runtime :
      {A : Type 0}
      → String
      → ℕ
      → String
      → Option String
      → Option ℕ
      → Result ServerError A
      → Locked A
  unfolding finish
  finish_runtime = finish (λ value. pure value)

  -- `commit_surface_operation` behind the evaluation; a snapshot is the answer
  unfoldable pub finish_commit :
      {A C : Type 0}
      → TreeView C
      → String
      → ℕ
      → String
      → Option String
      → Option ℕ
      → Result ServerError A
      → Locked (Node (CellDetail C))
  unfolding finish
  finish_commit tree = finish (λ value. snapshot_of tree limits)
