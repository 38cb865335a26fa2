-- ===== src/Examples/Servers.antt =====
-- The theorems on the server: a small server with one session, whose operation is being evaluated.
use sim_expr_tree.Prelude.{
  ℕ, true, ap, ◌∙◌, saturating_add, ◌≤◌, String, false, ◌≡◌, refl, Option, none, some, List, [],
  ◌∷◌, Result, ok, err, arith, string_eq, nat_eq,
}
use sim_expr_tree.Prelude.Hex.{hex16}
use sim_expr_tree.Prelude.HashMap.{get, remove}
use sim_expr_tree.Prelude.BTreeMap.{insert}
use sim_expr_tree.Server.Model.{ServerLimits, ChangeEvent, WatchState}
use sim_expr_tree.Server.Session.{SessionRecord, new_session, continuation}
use sim_expr_tree.Server.Session.Local
use sim_expr_tree.Server.Session.Local.{LocalOperation, by_name, continue_page}
use sim_expr_tree.Server.Session.Tokens
use sim_expr_tree.Server.Session.Tokens.{SessionCall}
use sim_expr_tree.Server.Session.Once.{Presents, unknown_token, apply_surface_local-once}
use sim_expr_tree.Server.Session.Delivery.{push_all, IsWindow, push_all-IsWindow}
use sim_expr_tree.Server.Session.Page.{
  TreeEntry, cell, Node, dir_node, cell_node, no_nodes, node_then, truncated, CellDetail, snapshot,
  saturating_mul, directory_page, one_page, admit_rows, rows, node, dir_row, cell_row, child_page,
  next_token, TreeView,
}
use sim_expr_tree.Server.Session.Page.Sizes.{node_size}
use sim_expr_tree.Server.Session.Page.Bounds.{snapshot-bounded}
use sim_expr_tree.Server.Registry.{Registry, new_registry, session_busy}
use sim_expr_tree.Server.Registry.Held.{Held}
use sim_expr_tree.Server.Registry.Within.{IsWithin}
use sim_expr_tree.Server.Registry.Run
use sim_expr_tree.Server.Registry.Run.{
  Call, subscribe, close_session, maintenance_tick, create_begin, create_finish, reserve_runtime,
  run_calls,
}
use sim_expr_tree.Server.Registry.Run.Bounded.{run_calls-IsWithin}
use sim_expr_tree.Server.Registry.Run.Reserved.{ends, ends_any, run_calls-Held}
use sim_expr_tree.Server.Registry.Run.Busy.{requests, refusal, request-busy}

abbrev small : ServerLimits
small = record {
  max_sessions = 1;
  max_idle_ticks = 5;
  max_watches_per_session = 1;
  watch_capacity = 2;
  max_page_entries = 1;
  max_snapshot_depth = 1;
}

abbrev life : List (Call (Unit {0}))
life =
    create_begin 7
    ∷ create_finish "7-1" 1
    ∷ subscribe "7-1"
    ∷ subscribe "7-1"
    ∷ create_begin 7
    ∷ maintenance_tick 9
    ∷ []

run_calls-IsWithin_example : IsWithin small (omega arith) (run_calls small life new_registry)
run_calls-IsWithin_example = run_calls-IsWithin small (omega arith) life

abbrev evaluating : Registry
evaluating = record {
  sessions = ("7-1", new_session "7-1" 1) ∷ [];
  in_flight = ("7-1", tt) ∷ [];
  next_session = 2;
  next_tick = 3;
}

evaluating-Held : Held small "7-1" (new_session "7-1" 1) evaluating
unfolding get
evaluating-Held = record { ascending = (tt, tt); found = refl; in_flight = refl }

abbrev intrusion : List (Call (Unit {0}))
intrusion =
    close_session "7-1" ∷ maintenance_tick 100 ∷ reserve_runtime "7-1" none ∷ subscribe "7-1" ∷ []

intrusion_ends_nothing : ends_any "7-1" intrusion ≡ false
unfolding ends_any ends
intrusion_ends_nothing = refl

run_calls-Held_example :
    Held small "7-1" (new_session "7-1" 1) (run_calls small intrusion evaluating)
run_calls-Held_example =
    run_calls-Held small "7-1" (new_session "7-1" 1) intrusion evaluating intrusion_ends_nothing
      evaluating-Held

-- a close of the session in question
abbrev closing : Call (Unit {0})
closing = close_session "7-1"

closing_asks : requests "7-1" closing ≡ true
unfolding requests
closing_asks = refl

request-busy_example :
    (refusal small closing evaluating ≡ some session_busy)
    × Held small "7-1" (new_session "7-1" 1) (Run.run small closing evaluating)
request-busy_example =
    request-busy small "7-1" (new_session "7-1" 1) closing evaluating closing_asks evaluating-Held

abbrev event : ℕ → ChangeEvent
event n = record {
  resource = "7-1";
  revision = n;
  logical_tick = n;
  wall_ms = none;
  kind = "set-expr";
  path = some "/a";
}

abbrev watch : WatchState
watch = record { events = event 1 ∷ []; dropped = 0; cancelled = false }

push_all-IsWindow_example :
    IsWindow 2 (event 2 ∷ event 3 ∷ []) watch (push_all 2 (event 2 ∷ event 3 ∷ []) watch)
push_all-IsWindow_example =
    push_all-IsWindow 2 (omega arith) (event 2 ∷ event 3 ∷ []) watch (omega arith) refl
      (omega arith)

-- a root with two collapsed cells, of which one is admitted
abbrev two_cells : String → Result String (List TreeEntry)
two_cells path = ok (
    record { path = "/a"; name = "a"; kind = cell; revision = 1 }
    ∷ record { path = "/b"; name = "b"; kind = cell; revision = 1 }
    ∷ [])

abbrev no_cell : String → Result String (Unit {0})
no_cell path = err "not read"

abbrev never : Unit {0} → Option ℕ
never facts = none

abbrev shown : Node (CellDetail (Unit {0}))
shown = dir_node "/" "root" 1 (
    truncated (node_then (cell_node "/a" "a" 1 none) no_nodes)
      "page-7-1-0000000000000001-0000000000000001" (some 1))

abbrev after : SessionRecord
after = record (new_session "7-1" 1) {
  continuations =
      ("page-7-1-0000000000000001-0000000000000001", record { path = "/"; offset = 1; issued = 1 })
      ∷ [];
  next_continuation = 2;
}

snapshot_run : snapshot two_cells no_cell never small (new_session "7-1" 1) ≡ (ok shown, after)
unfolding snapshot directory_page one_page admit_rows rows node dir_row cell_row child_page
    next_token saturating_mul continuation new_session get insert hex16 saturating_add
snapshot_run = refl

snapshot-bounded_example : node_size shown ≤ 1
unfolding saturating_mul
snapshot-bounded_example =
    snapshot-bounded two_cells no_cell never small (new_session "7-1" 1) after shown snapshot_run

-- the session shows its root, which is cut, and an operation asks for the rest
abbrev view : TreeView (Unit {0})
view = record { inspect_entries = two_cells; inspect_cell = no_cell; wall_finished_ms = never }

abbrev opening : List (SessionCall (Unit {0}))
opening = SessionCall.snapshot view ∷ []

abbrev more : LocalOperation
more = record {
  op = some "continue";
  tree = some (some "7-1");
  revision = ok 1;
  path = none;
  is_open = false;
  continuation = some "page-7-1-0000000000000001-0000000000000001";
}

opened : Tokens.run_all small opening (new_session "7-1" 1) ≡ after
unfolding Tokens.run_all Tokens.run
opened = ap (λ x. x.1) snapshot_run

-- one page more is asked for, and the session is shown again
abbrev continued : SessionRecord
continued = record after { continuations = []; page_sizes = ("/", 2) ∷ [] }

continues : Local.apply_surface_local more small after ≡ (ok true, continued)
unfolding Local.apply_surface_local by_name continue_page new_session get insert remove
    saturating_add
continues = refl

abbrev ending : SessionRecord
ending = record continued {
  continuations =
      ("page-7-1-0000000000000001-0000000000000002", record { path = "/"; offset = 1; issued = 1 })
      ∷ [];
  next_continuation = 3;
}

reshown : Tokens.run_all small opening continued ≡ ending
unfolding Tokens.run_all Tokens.run snapshot directory_page one_page admit_rows rows node dir_row
    cell_row child_page next_token saturating_mul continuation new_session get insert hex16
    saturating_add
reshown = refl

abbrev token : String
token = "page-7-1-0000000000000001-0000000000000001"

abbrev used : SessionRecord
used = (Local.apply_surface_local more small (Tokens.run_all small opening (new_session "7-1" 1))).1

used_again : Tokens.run_all small opening used ≡ ending
used_again =
    ap (λ x. Tokens.run_all small opening (Local.apply_surface_local more small x).1) opened
    ∙ ap (λ x. Tokens.run_all small opening x.1) continues
    ∙ reshown

first-Presents : Presents more token (Tokens.run_all small opening (new_session "7-1" 1))
unfolding new_session
first-Presents = rw opened (record { op = refl; tree = refl; revision = refl; continuation = refl })

first_held :
    get token (Tokens.run_all small opening (new_session "7-1" 1)).continuations
    ≡ some (record { path = "/"; offset = 1; issued = 1 })
unfolding get
first_held = rw opened refl

again-Presents : Presents more token (Tokens.run_all small opening used)
unfolding new_session
again-Presents =
    rw used_again (record { op = refl; tree = refl; revision = refl; continuation = refl })

apply_surface_local-once_example :
    (Local.apply_surface_local more small (Tokens.run_all small opening used)).0 ≡ err unknown_token
apply_surface_local-once_example =
    apply_surface_local-once small "7-1" 1 opening opening more more token
      (record { path = "/"; offset = 1; issued = 1 }) first-Presents first_held again-Presents
      (rw used_again (omega arith))
