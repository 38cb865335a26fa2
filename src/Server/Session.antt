-- ===== src/Server/Session.antt =====
-- crates/sim-lib-expr-tree-server/src/session.rs: one session, its changes, watches and continuations. The
-- handle of the tree is left out; what the server reads from it is an argument of `Session.Page`.
pub mod Page
pub mod Local
pub mod Delivery
pub mod Feeds
pub mod Tokens
pub mod Once
use Prim.Native.String.{◌++◌, len}
use text.Mathlib.Text.{starts_with}
use sim_expr_tree.Prelude.{
  ℕ, zero, suc, String, Bool, true, false, not, ◌||◌, ◌&&◌, Option, none, some, List, [], ◌∷◌,
  Result, ok, err, ok_or, leb, ltb, length, saturating_add, ◌==◌, string_eq, nat_eq, if◌then◌else◌,
}
use sim_expr_tree.Prelude.Decimal.{decimal}
use sim_expr_tree.Prelude.Hex.{hex16}
use sim_expr_tree.Prelude.Chars.{strip_prefix}
use sim_expr_tree.Prelude.Exec.{Exec, ◌>>=◌, ◌>>◌, pure, check, modify}
use sim_expr_tree.Prelude.HashMap.{get, remove, contains_key}
use sim_expr_tree.Prelude.BTreeMap.{BTreeMap, insert, retain, map_values}
use sim_expr_tree.Server.Model.{
  ServerError, new_error, ServerLimits, ChangeEvent, WatchBatch, WatchState, new_watch,
  push_bounded, push, take_front, drop_front,
}

-- what a continuation token stands for: a path, an offset and the revision it was issued at
pub record Place : Type 0 where
  pub path : String
  pub offset : ℕ
  pub issued : ℕ

pub record SessionRecord : Type 0 where
  pub id : String
  pub revision : ℕ
  pub last_activity_tick : ℕ
  pub expanded : BTreeMap (Unit {0})
  pub page_sizes : BTreeMap ℕ
  pub continuations : BTreeMap Place
  pub next_continuation : ℕ
  pub source_wall : BTreeMap ℕ
  pub result_wall : BTreeMap ℕ
  pub changes : List ChangeEvent
  pub dropped_changes : ℕ
  pub watches : BTreeMap WatchState
  pub next_watch : ℕ

-- `SessionRecord::new`
unfoldable pub new_session : String → ℕ → SessionRecord
new_session id tick = record {
  id = id;
  revision = 1;
  last_activity_tick = tick;
  expanded = ("/", tt) ∷ [];
  page_sizes = [];
  continuations = [];
  next_continuation = 1;
  source_wall = [];
  result_wall = [];
  changes = [];
  dropped_changes = 0;
  watches = [];
  next_watch = 1;
}

-- A method on `&mut self`.
abbrev pub Method : Type 0 → Type 0
Method A = Exec SessionRecord ServerError A

unfoldable pub is_source_change : String → Bool
is_source_change kind =
    kind == "new-cell"
    || (kind == "set-expr" || (kind == "move" || (kind == "rename" || kind == "delete")))

unfoldable pub is_result_change : String → Bool
is_result_change kind =
    kind == "calculate"
    || (kind == "recalculate" || (kind == "recalculate-recursive" || kind == "cancel"))

-- a wall-clock observation is written where there is a path, an observation and a change of the right kind
abbrev pub note_wall : Bool → Option String → Option ℕ → BTreeMap ℕ → BTreeMap ℕ
note_wall true (some path) (some wall_ms) m = insert path wall_ms m
note_wall applies path wall_ms m = m

unfoldable pub changed :
    String → Option String → ℕ → Option ℕ → ServerLimits → SessionRecord → SessionRecord
unfolding is_source_change is_result_change push_bounded push
changed kind path tick wall_ms limits s =
    let revision = saturating_add s.revision 1 in
    let event : ChangeEvent = record {
      resource = s.id;
      revision = revision;
      logical_tick = tick;
      wall_ms = wall_ms;
      kind = kind;
      path = path;
    } in
    let pushed = push_bounded event limits.watch_capacity (s.changes, s.dropped_changes) in
    record s {
      revision = revision;
      source_wall = note_wall (is_source_change kind) path wall_ms s.source_wall;
      result_wall = note_wall (is_result_change kind) path wall_ms s.result_wall;
      changes = pushed.0;
      dropped_changes = pushed.1;
      watches = map_values (push event limits.watch_capacity) s.watches;
    }

unfoldable pub drain_changes : Method (List ChangeEvent)
drain_changes s = (ok s.changes, record s { changes = [] })

unfoldable pub watch_id : SessionRecord → String
watch_id s = "watch-" ++ (s.id ++ ("-" ++ hex16 s.next_watch))

unfoldable pub subscribe : ServerLimits → Method String
unfolding watch_id
subscribe limits s =
    if leb limits.max_watches_per_session (length s.watches)
    then (
      err (
          new_error "watch-limit"
            ("session already has " ++ (decimal limits.max_watches_per_session ++ " watches"))),
      s,
    )
    else (
      ok (watch_id s),
      record s {
        next_watch = saturating_add s.next_watch 1;
        watches = insert (watch_id s) new_watch s.watches;
      },
    )

abbrev pub unknown_watch : ServerError
unknown_watch = new_error "unknown-watch" "watch does not belong to session"

abbrev pub min : ℕ → ℕ → ℕ
min m n = if leb m n then m else n

unfoldable pub poll_watch : String → ℕ → Method WatchBatch
poll_watch watch limit s = elim (get watch s.watches) [
  | none ↦ (err unknown_watch, s)
  | some state ↦
      let count = min limit (length state.events) in
      (
        ok (record {
          events = take_front count state.events;
          dropped = state.dropped;
          cancelled = state.cancelled;
        }),
        record s {
          watches =
              insert watch (record state { events = drop_front count state.events }) s.watches;
        },
      )
]

unfoldable pub cancel_watch : String → Method (Unit {0})
cancel_watch watch s = elim (get watch s.watches) [
  | none ↦ (err unknown_watch, s)
  | some state ↦ (
    ok tt,
    record s { watches = insert watch (record state { cancelled = true; events = [] }) s.watches },
  )
]

unfoldable pub continuation : String → ℕ → SessionRecord → String × SessionRecord
continuation path offset s =
    let token =
      "page-" ++ (s.id ++ ("-" ++ (hex16 s.revision ++ ("-" ++ hex16 s.next_continuation)))) in
    (
      token,
      record s {
        next_continuation = saturating_add s.next_continuation 1;
        continuations =
            insert token (record { path = path; offset = offset; issued = s.revision })
              s.continuations;
      },
    )

unfoldable pub under : String → String → Bool
under candidate parent = candidate == parent || elim (strip_prefix parent candidate) [
  | none ↦ false
  | some suffix ↦ parent == "/" || starts_with suffix "/"
]
