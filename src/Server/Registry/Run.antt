-- ===== src/Server/Registry/Run.antt =====
-- The stretches of code that hold the lock of a server, as calls. The calls of several clients, and the
-- halves of operations that evaluate outside of the lock, come in any order.
pub mod Bounded
pub mod Reserved
pub mod Busy
use sim_expr_tree.Prelude.{ℕ, String, Bool, false, Option, List, [], ◌∷◌, Result, ◌==◌, string_eq}
use sim_expr_tree.Server.Model.{ServerError, ServerLimits}
use sim_expr_tree.Server.Session.Page.{TreeView}
use sim_expr_tree.Server.Session.Local.{LocalOperation}
use sim_expr_tree.Server.Registry
use sim_expr_tree.Server.Registry.{Registry}

-- What the server reads from the tree of a session during a call stands with the call.
pub data Call (C : Type 0) : Type 0 where
  snapshot : TreeView C → String → Call C
  revision : String → Call C
  subscribe : String → Call C
  poll_watch : String → String → ℕ → Call C
  cancel_watch : String → String → Call C
  drain_changes : String → Call C
  close_session : String → Call C
  maintenance_tick : ℕ → Call C
  create_begin : ℕ → Call C
  create_finish : String → ℕ → Call C
  commit_local :
      TreeView C → String → Option ℕ → LocalOperation → String → Option String → Option ℕ → Call C
  reserve_runtime : String → Option ℕ → Call C
  finish_runtime :
      String → ℕ → String → Option String → Option ℕ → Result ServerError (Unit {0}) → Call C
  finish_commit :
      TreeView C
      → String
      → ℕ
      → String
      → Option String
      → Option ℕ
      → Result ServerError (Unit {0})
      → Call C

module _ {C : Type 0} (limits : ServerLimits) where
  unfoldable pub run : Call C → Registry → Registry
  run (snapshot tree id) r = (Registry.snapshot limits tree id r).1
  run (revision id) r = (Registry.revision limits id r).1
  run (subscribe id) r = (Registry.subscribe limits id r).1
  run (poll_watch id watch n) r = (Registry.poll_watch limits id watch n r).1
  run (cancel_watch id watch) r = (Registry.cancel_watch limits id watch r).1
  run (drain_changes id) r = (Registry.drain_changes limits id r).1
  run (close_session id) r = (Registry.close_session limits id r).1
  run (maintenance_tick steps) r = (Registry.maintenance_tick limits steps r).1
  run (create_begin nonce) r = (Registry.create_begin limits nonce r).1
  run (create_finish id tick) r = (Registry.create_finish limits id tick r).1
  run (commit_local tree id expected operation kind path wall) r =
      (Registry.commit_local limits tree id expected operation kind path wall r).1
  run (reserve_runtime id expected) r = (Registry.reserve_runtime limits id expected r).1
  run (finish_runtime id tick kind path wall outcome) r =
      (Registry.finish_runtime limits id tick kind path wall outcome r).1
  run (finish_commit tree id tick kind path wall outcome) r =
      (Registry.finish_commit limits tree id tick kind path wall outcome r).1

  unfoldable pub run_calls : List (Call C) → Registry → Registry
  unfolding run
  run_calls [] r = r
  run_calls (call ∷ calls) r = run_calls calls (run call r)
