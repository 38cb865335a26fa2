-- ===== src/Server/Model.antt =====
-- crates/sim-lib-expr-tree-server/src/model.rs and error.rs: limits, change events, watches.
use sim_expr_tree.Prelude.{
  ℕ, zero, suc, String, Bool, false, ◌&&◌, Option, List, [], ◌∷◌, ◌++◌, ltb, length, saturating_add,
  ◌==◌, nat_eq, if◌then◌else◌,
}
use sim_expr_tree.Prelude.Chars.{take_chars}

pub record ServerError : Type 0 where
  pub code : String
  pub message : String

-- `ExpressionTreeServerError::new`
unfoldable pub new_error : String → String → ServerError
new_error code message = record { code = code; message = take_chars 512 message }

pub record ServerLimits : Type 0 where
  pub max_sessions : ℕ
  pub max_idle_ticks : ℕ
  pub max_watches_per_session : ℕ
  pub watch_capacity : ℕ
  pub max_page_entries : ℕ
  pub max_snapshot_depth : ℕ

abbrev pub default_limits : ServerLimits
default_limits = record {
  max_sessions = 128;
  max_idle_ticks = 10000;
  max_watches_per_session = 16;
  watch_capacity = 128;
  max_page_entries = 128;
  max_snapshot_depth = 16;
}

unfoldable pub validate : ServerLimits → Bool
validate l =
    ltb 0 l.max_sessions
    && (ltb 0 l.max_idle_ticks
        && (ltb 0 l.max_watches_per_session
            && (ltb 0 l.watch_capacity
                && (ltb 0 l.max_page_entries && ltb 0 l.max_snapshot_depth))))

-- A resource is the identity of its session.
pub record ChangeEvent : Type 0 where
  pub resource : String
  pub revision : ℕ
  pub logical_tick : ℕ
  pub wall_ms : Option ℕ
  pub kind : String
  pub path : Option String

pub record WatchBatch : Type 0 where
  pub events : List ChangeEvent
  pub dropped : ℕ
  pub cancelled : Bool

pub record WatchState : Type 0 where
  pub events : List ChangeEvent
  pub dropped : ℕ
  pub cancelled : Bool

-- `WatchState::new`
abbrev pub new_watch : WatchState
new_watch = record { events = []; dropped = 0; cancelled = false }

abbrev pub pop_front : List ChangeEvent → List ChangeEvent
pop_front [] = []
pop_front (e ∷ events) = events

-- `push_bounded` of session.rs on the queue and its count of dropped events
unfoldable pub push_bounded : ChangeEvent → ℕ → List ChangeEvent × ℕ → List ChangeEvent × ℕ
push_bounded event capacity (queue, dropped) =
    if length queue == capacity
    then (pop_front queue ++ event ∷ [], saturating_add dropped 1)
    else (queue ++ event ∷ [], dropped)

-- `WatchState::push`
unfoldable pub push : ChangeEvent → ℕ → WatchState → WatchState
push event capacity w =
    if w.cancelled
    then w
    else if length w.events == capacity
    then record w {
      events = pop_front w.events ++ event ∷ [];
      dropped = saturating_add w.dropped 1;
    }
    else record w { events = w.events ++ event ∷ [] }

-- `drain(..n)`: what is taken, and what stays
abbrev pub take_front : ℕ → List ChangeEvent → List ChangeEvent
take_front zero events = []
take_front (suc n) [] = []
take_front (suc n) (e ∷ events) = e ∷ take_front n events

abbrev pub drop_front : ℕ → List ChangeEvent → List ChangeEvent
drop_front zero events = events
drop_front (suc n) [] = []
drop_front (suc n) (e ∷ events) = drop_front n events
