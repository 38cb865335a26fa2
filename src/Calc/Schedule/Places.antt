-- ===== src/Calc/Schedule/Places.antt =====
-- Scheduling again does not cost a queued cell its place.
use sim_expr_tree.Prelude.{
  ℕ, String, Bool, true, false, ◌≡◌, refl, ap, ◌∙◌, inl, inr, Option, none, some, List, [], ◌∷◌,
  ◌==◌, string_eq, arith, Bool-cases,
}
use sim_expr_tree.Prelude.HashMap.{get}
use sim_expr_tree.Prelude.BTreeMap.{BTreeMap, insert, get-insert}
use sim_expr_tree.Calc.Schedule.{QueuedCalculation, Scheduler, bump_queue_generation}
use sim_expr_tree.Calc.Schedule.Enqueue.{
  Eligible, among, cells_of, retain, requeue, push_new, update_found, enqueue, enqueue_all,
  retain_cells, bump_if, saturating_add_u64, is_changed, schedule_dirty_automatic,
}

module _ {T : Type 0} where
  -- `cell` is queued with the identity, the place and the count of `q`
  abbrev pub Keeps : String → QueuedCalculation T → Scheduler T → Type 0
  Keeps cell q s =
      (r : QueuedCalculation T) × (get cell s.automatic_queue ≡ some r)
      × (r.request_id ≡ q.request_id)
      × (r.sequence ≡ q.sequence)
      × (r.bypasses ≡ q.bypasses)

  module _ (key cell : String) where
    get-replaced :
        (v : QueuedCalculation T) (m : BTreeMap (QueuedCalculation T))
        → (key == cell) ≡ true
        → get cell (insert key v m) ≡ some v
    get-replaced v m same = ground (arith, get-insert key cell v m)

    get-untouched :
        (v : QueuedCalculation T) (m : BTreeMap (QueuedCalculation T))
        → (key == cell) ≡ false
        → get cell (insert key v m) ≡ get cell m
    get-untouched v m other = ground (arith, get-insert key cell v m)

    found_same :
        (p r : QueuedCalculation T) (m : BTreeMap (QueuedCalculation T))
        → (key == cell) ≡ true
        → get key m ≡ some p
        → get cell m ≡ some r
        → p ≡ r
    found_same p r m same at found = ground (arith, string_eq.beq_iff key cell)

    get-other :
        (v r : QueuedCalculation T) (m : BTreeMap (QueuedCalculation T))
        → get key m ≡ none
        → get cell m ≡ some r
        → get cell (insert key v m) ≡ some r
    get-other v r m free found = ground (arith, get-insert key cell v m, string_eq.beq_iff key cell)

  update_found-Keeps :
      (cell : String) (q : QueuedCalculation T) (ready : ℕ) (e : Eligible)
      (o : Option (QueuedCalculation T)) (x : Bool × Scheduler T)
      → get e.cell x.1.automatic_queue ≡ o
      → Keeps cell q x.1
      → Keeps cell q (update_found ready e o x).1
  unfolding update_found push_new requeue
  update_found-Keeps cell q ready e none x at (r, found, i, j, k) =
      (r, get-other e.cell cell _ r x.1.automatic_queue at found, i, j, k)
  update_found-Keeps cell q ready e (some p) x at (r, found, i, j, k) =
      elim (Bool-cases (is_changed ready e.priority p)) [
        | inl new ↦ rw new (elim (Bool-cases (e.cell == cell)) [
          | inl same ↦
              let is_p = found_same e.cell cell p r x.1.automatic_queue same at found in
              (
                requeue ready e.priority p,
                get-replaced e.cell cell (requeue ready e.priority p) x.1.automatic_queue same,
                ap (λ y. y.request_id) is_p ∙ i,
                ap (λ y. y.sequence) is_p ∙ j,
                ap (λ y. y.bypasses) is_p ∙ k,
              )
          | inr other ↦ (
            r,
            get-untouched e.cell cell (requeue ready e.priority p) x.1.automatic_queue other
                ∙ found,
            i,
            j,
            k,
          )
        ])
        | inr old ↦ rw old (r, found, i, j, k)
      ]

  retain-kept :
      (cells : List String) (cell : String) (m : BTreeMap (QueuedCalculation T))
      → among cell cells ≡ true
      → get cell (retain cells m) ≡ get cell m
  unfolding retain get
  retain-kept cells cell [] h = refl
  retain-kept cells cell ((k, q) ∷ m) h =
      ground (arith, retain-kept cells cell m h, string_eq.beq_iff k cell)

  enqueue_all-Keeps :
      (cell : String) (q : QueuedCalculation T) (now : ℕ) (l : List Eligible)
      (x : Bool × Scheduler T)
      → Keeps cell q x.1
      → Keeps cell q (enqueue_all now l x).1
  unfolding enqueue_all enqueue
  enqueue_all-Keeps cell q now [] x h = h
  enqueue_all-Keeps cell q now (e ∷ l) x h = enqueue_all-Keeps cell q now l (enqueue now e x) (
      update_found-Keeps cell q (saturating_add_u64 now e.debounce_ms) e
        (get e.cell x.1.automatic_queue) x refl h)

  bump_if-Keeps :
      (cell : String) (q : QueuedCalculation T) (x : Bool × Scheduler T)
      → Keeps cell q x.1
      → Keeps cell q (bump_if x)
  unfolding bump_queue_generation
  bump_if-Keeps cell q (true, s) h = h
  bump_if-Keeps cell q (false, s) h = h

  -- A queued cell that is still eligible stays queued when the dirty cells are scheduled again, with its
  -- request identity, its place in the order of insertion and its count of how often it was passed over.
  pub schedule_dirty_automatic-Keeps :
      (now : ℕ) (eligible : List Eligible) (s : Scheduler T) (cell : String)
      (q : QueuedCalculation T)
      → get cell s.automatic_queue ≡ some q
      → among cell (cells_of eligible) ≡ true
      → Keeps cell q (schedule_dirty_automatic now eligible s)
  unfolding schedule_dirty_automatic retain_cells
  schedule_dirty_automatic-Keeps now eligible s cell q found listed = bump_if-Keeps cell q _ (
      enqueue_all-Keeps cell q now eligible _ (
        q,
        retain-kept (cells_of eligible) cell s.automatic_queue listed ∙ found,
        refl,
        refl,
        refl,
      ))
