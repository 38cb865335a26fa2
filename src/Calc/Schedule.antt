-- ===== src/Calc/Schedule.antt =====
-- crates/sim-expr-tree-calc/src/calc/scheduler.rs and scheduling.rs: the automatic queue and the choice
-- of the next cell. The cells of the queue are the keys of a `BTreeMap`.
pub mod Best
pub mod Choice
pub mod Enqueue
pub mod Places
use Prim.Native.Nat.{Ordering}
use Prim.Native.String.{compare}
use sim_expr_tree.Prelude.{
  ℕ, ◌+◌, ◌-◌, ◌^◌, String, Bool, true, false, not, ◌&&◌, ◌||◌, Option, none, some, List, [], ◌∷◌,
  ltb, leb, ◌==◌, nat_eq, string_eq, if◌then◌else◌,
}
use sim_expr_tree.Prelude.Integer.{ℤ, ltz}
use sim_expr_tree.Prelude.BTreeMap.{BTreeMap, values}

abbrev pub max_ready_bypasses : ℕ
max_ready_bypasses = 3

-- `T` is sim-incremental-core's `ContinuationToken`
pub record QueuedCalculation (T : Type 0) : Type 0 where
  pub request_id : ℕ
  pub cell : String
  pub ready_at_ms : ℕ
  pub priority : ℤ
  pub sequence : ℕ
  pub bypasses : ℕ
  pub incremental_continuation : Option T

-- the fields of `ExprTreeCalc` that the scheduler keeps
pub record Scheduler (T : Type 0) : Type 0 where
  pub automatic_queue : BTreeMap (QueuedCalculation T)
  pub automatic_generation : ℕ
  pub next_queue_sequence : ℕ
  pub next_request_id : ℕ

-- `saturating_add(1)` of a `u8` and of a `u64`
abbrev pub saturating_suc_u8 : ℕ → ℕ
saturating_suc_u8 n = if ltb n 255 then n + 1 else n

abbrev pub saturating_suc_u64 : ℕ → ℕ
saturating_suc_u64 n = if ltb n (2 ^ 64 - 1) then n + 1 else n

abbrev pub text_ltb : String → String → Bool
text_ltb a b = elim (compare a b) [ Ordering.lt ↦ true | _ ↦ false ]

module _ {T : Type 0} where
  -- `(a.sequence, a.cell) < (b.sequence, b.cell)`
  abbrev pub earlier : QueuedCalculation T → QueuedCalculation T → Bool
  earlier a b = ltb a.sequence b.sequence || (a.sequence == b.sequence && text_ltb a.cell b.cell)

  -- the comparator of `max_by` answers `Greater`
  abbrev pub outranks : QueuedCalculation T → QueuedCalculation T → Bool
  outranks a b = ltz b.priority a.priority || (not (ltz a.priority b.priority) && earlier a b)

  abbrev pub is_ready : ℕ → QueuedCalculation T → Bool
  is_ready now q = leb q.ready_at_ms now

  abbrev pub is_overdue : QueuedCalculation T → Bool
  is_overdue q = leb max_ready_bypasses q.bypasses

  unfoldable pub filter :
      (QueuedCalculation T → Bool) → List (QueuedCalculation T) → List (QueuedCalculation T)
  filter keep [] = []
  filter keep (q ∷ rest) = let more = filter keep rest in if keep q then q ∷ more else more

  -- `Iterator::reduce`, with the best entry so far
  unfoldable pub reduce :
      (QueuedCalculation T → QueuedCalculation T → QueuedCalculation T)
      → QueuedCalculation T
      → List (QueuedCalculation T)
      → QueuedCalculation T
  reduce pick best [] = best
  reduce pick best (q ∷ rest) = reduce pick (pick best q) rest

  -- `min_by_key`: of equal entries the first
  abbrev pub lesser : QueuedCalculation T → QueuedCalculation T → QueuedCalculation T
  lesser best q = if earlier q best then q else best

  -- `max_by`: of equal entries the last
  abbrev pub greater : QueuedCalculation T → QueuedCalculation T → QueuedCalculation T
  greater best q = if outranks best q then best else q

  abbrev pub min_by_key : List (QueuedCalculation T) → Option (QueuedCalculation T)
  min_by_key [] = none
  min_by_key (q ∷ rest) = some (reduce lesser q rest)

  abbrev pub max_by : List (QueuedCalculation T) → Option (QueuedCalculation T)
  max_by [] = none
  max_by (q ∷ rest) = some (reduce greater q rest)

  -- `Option::or_else`
  abbrev pub or_else :
      Option (QueuedCalculation T) → Option (QueuedCalculation T) → Option (QueuedCalculation T)
  or_else (some q) other = some q
  or_else none other = other

  unfoldable pub choose : List (QueuedCalculation T) → Option (QueuedCalculation T)
  unfolding filter reduce
  choose ready = or_else (min_by_key (filter is_overdue ready)) (max_by ready)

  -- one round of the loop over `values_mut`
  abbrev pub age : ℕ → String → QueuedCalculation T → QueuedCalculation T
  age now selected q =
      if ltb now q.ready_at_ms
      then q
      else if q.cell == selected
      then record q { bypasses = 0 }
      else record q { bypasses = saturating_suc_u8 q.bypasses }

  unfoldable pub age_all :
      ℕ → String → BTreeMap (QueuedCalculation T) → BTreeMap (QueuedCalculation T)
  age_all now selected [] = []
  age_all now selected ((k, q) ∷ rest) = (k, age now selected q) ∷ age_all now selected rest

  unfoldable pub finish_select :
      ℕ → Option (QueuedCalculation T) → Scheduler T → Option String × Scheduler T
  unfolding age_all
  finish_select now none s = (none, s)
  finish_select now (some q) s =
      (some q.cell, record s { automatic_queue = age_all now q.cell s.automatic_queue })

  unfoldable pub select_ready_cell : ℕ → Scheduler T → Option String × Scheduler T
  unfolding choose finish_select
  select_ready_cell now s =
      finish_select now (choose (filter (is_ready now) (values s.automatic_queue))) s

  unfoldable pub allocate_request_id : Scheduler T → ℕ × Scheduler T
  allocate_request_id s =
      (s.next_request_id, record s { next_request_id = saturating_suc_u64 s.next_request_id })

  -- `saturating_add(1).max(1)`
  unfoldable pub bump_queue_generation : Scheduler T → Scheduler T
  bump_queue_generation s =
      let next = saturating_suc_u64 s.automatic_generation in
      record s { automatic_generation = if ltb next 1 then 1 else next }
