-- ===== src/Calc/Schedule/Enqueue.antt =====
-- `schedule_dirty_automatic` and `prune_satisfied_automatic`: which cells are queued. The cells that are
-- dirty and automatic, each with its priority and debounce, are an argument, `eligible`: the engine and
-- the policies give them.
use sim_expr_tree.Prelude.{
  ℕ, ◌+◌, ◌-◌, ◌^◌, String, Bool, true, false, not, ◌&&◌, ◌||◌, Option, none, some, List, [], ◌∷◌,
  ltb, ◌==◌, nat_eq, string_eq, nat_beq, length, if◌then◌else◌,
}
use sim_expr_tree.Prelude.Integer.{ℤ, ltz}
use sim_expr_tree.Prelude.HashMap.{get}
use sim_expr_tree.Prelude.BTreeMap.{BTreeMap, insert}
use sim_expr_tree.Calc.Schedule.{
  QueuedCalculation, Scheduler, saturating_suc_u64, bump_queue_generation,
}

pub record Eligible : Type 0 where
  pub cell : String
  pub priority : ℤ
  pub debounce_ms : ℕ

unfoldable pub saturating_add_u64 : ℕ → ℕ → ℕ
saturating_add_u64 a b = if ltb (2 ^ 64 - 1) (a + b) then 2 ^ 64 - 1 else a + b

abbrev pub same_priority : ℤ → ℤ → Bool
same_priority a b = not (ltz a b) && not (ltz b a)

unfoldable pub among : String → List String → Bool
among c [] = false
among c (d ∷ rest) = d == c || among c rest

abbrev pub cells_of : List Eligible → List String
cells_of [] = []
cells_of (e ∷ rest) = e.cell ∷ cells_of rest

module _ {T : Type 0} where
  -- `BTreeMap::retain` by the key
  unfoldable pub retain :
      List String → BTreeMap (QueuedCalculation T) → BTreeMap (QueuedCalculation T)
  unfolding among
  retain cells [] = []
  retain cells ((k, q) ∷ rest) =
      let more = retain cells rest in if among k cells then (k, q) ∷ more else more

  -- an entry that is queued already takes over a changed deadline or priority
  unfoldable pub requeue : ℕ → ℤ → QueuedCalculation T → QueuedCalculation T
  requeue ready_at_ms priority q = record q {
    ready_at_ms = ready_at_ms;
    priority = priority;
    incremental_continuation = none;
  }

  abbrev pub is_changed : ℕ → ℤ → QueuedCalculation T → Bool
  is_changed ready_at_ms priority q =
      not (q.ready_at_ms == ready_at_ms) || not (same_priority q.priority priority)

  -- a new entry takes the next request identity and the next place
  unfoldable pub push_new : ℕ → Eligible → Scheduler T → Scheduler T
  push_new ready_at_ms e s = record s {
    next_request_id = saturating_suc_u64 s.next_request_id;
    next_queue_sequence = saturating_suc_u64 s.next_queue_sequence;
    automatic_queue =
        insert e.cell
          (record {
            request_id = s.next_request_id;
            cell = e.cell;
            ready_at_ms = ready_at_ms;
            priority = e.priority;
            sequence = s.next_queue_sequence;
            bypasses = 0;
            incremental_continuation = none;
          })
          s.automatic_queue;
  }

  unfoldable pub update_found :
      ℕ → Eligible → Option (QueuedCalculation T) → Bool × Scheduler T → Bool × Scheduler T
  unfolding requeue push_new
  update_found ready_at_ms e none (changed, s) = (true, push_new ready_at_ms e s)
  update_found ready_at_ms e (some q) (changed, s) =
      if is_changed ready_at_ms e.priority q
      then (
        true,
        record s {
          automatic_queue = insert e.cell (requeue ready_at_ms e.priority q) s.automatic_queue;
        },
      )
      else (changed, s)

  -- one round of the loop of `schedule_dirty_automatic`, with the flag `changed`
  unfoldable pub enqueue : ℕ → Eligible → Bool × Scheduler T → Bool × Scheduler T
  unfolding update_found saturating_add_u64
  enqueue now e x =
      update_found (saturating_add_u64 now e.debounce_ms) e (get e.cell x.1.automatic_queue) x

  unfoldable pub enqueue_all : ℕ → List Eligible → Bool × Scheduler T → Bool × Scheduler T
  unfolding enqueue
  enqueue_all now [] x = x
  enqueue_all now (e ∷ rest) x = enqueue_all now rest (enqueue now e x)

  -- the queue without the cells that are not listed, and whether that removed any
  unfoldable pub retain_cells : List String → Scheduler T → Bool × Scheduler T
  unfolding retain
  retain_cells cells s =
      let kept = retain cells s.automatic_queue in
      (not (nat_beq (length kept) (length s.automatic_queue)), record s { automatic_queue = kept })

  abbrev pub bump_if : Bool × Scheduler T → Scheduler T
  bump_if (changed, s) = if changed then bump_queue_generation s else s

  unfoldable pub schedule_dirty_automatic : ℕ → List Eligible → Scheduler T → Scheduler T
  unfolding retain_cells enqueue_all
  schedule_dirty_automatic now eligible s =
      bump_if (enqueue_all now eligible (retain_cells (cells_of eligible) s))

  unfoldable pub prune_satisfied_automatic : List String → Scheduler T → Scheduler T
  unfolding retain_cells
  prune_satisfied_automatic dirty s = bump_if (retain_cells dirty s)
