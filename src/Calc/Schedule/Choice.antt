-- ===== src/Calc/Schedule/Choice.antt =====
-- Which entry of the automatic queue is chosen.
use mathlib.Core.List.{Memᴰ}
use sim_expr_tree.Prelude.{
  ℕ, ◌≤◌, ◌<◌, String, true, false, ◌≡◌, refl, ◌∙◌, subst, inl, inr, Option, none, some, List,
  nat_eq, string_eq, arith, Bool-cases, Option-cases,
}
use sim_expr_tree.Prelude.BTreeMap.{values}
use sim_expr_tree.Calc.Schedule.{
  QueuedCalculation, Scheduler, is_ready, is_overdue, filter, min_by_key, max_by, or_else, choose,
  finish_select, select_ready_cell,
}
use sim_expr_tree.Calc.Schedule.Best.{
  NoLater, Ahead, min_by_key-best, max_by-best, min_by_key-empty, max_by-empty, filter-member,
  member-filter,
}

module _ {T : Type 0} where
  -- What the choice has to meet: the entry is queued and ready, it has been passed over three
  -- times or more if any ready entry has, and comes no later than any of these; and if it has not, no ready entry has a higher priority, and
  -- none of the same priority comes before it.
  pub record IsChosen (now : ℕ) (queue : List (QueuedCalculation T)) (q : QueuedCalculation T)
      : Type 0 where
    pub queued : Memᴰ q queue
    pub ready : is_ready now q ≡ true
    pub overdue_first :
        (p : QueuedCalculation T)
        → Memᴰ p queue
        → is_ready now p ≡ true
        → 3 ≤ p.bypasses
        → (3 ≤ q.bypasses) × NoLater q p
    pub foremost :
        q.bypasses < 3
        → (p : QueuedCalculation T) → Memᴰ p queue
        → is_ready now p ≡ true
        → Ahead q p

  module _ (now : ℕ) (queue : List (QueuedCalculation T)) where
    abbrev ready_now : List (QueuedCalculation T)
    ready_now = filter (is_ready now) queue

    abbrev overdue_now : List (QueuedCalculation T)
    overdue_now = filter is_overdue ready_now

    overdue_member :
        (p : QueuedCalculation T)
        → Memᴰ p queue
        → is_ready now p ≡ true
        → is_overdue p ≡ true
        → Memᴰ p overdue_now
    overdue_member p m r o =
        member-filter is_overdue ready_now p (member-filter (is_ready now) queue p m r) o

    passed_over : (q : QueuedCalculation T) → is_overdue q ≡ true → 3 ≤ q.bypasses
    passed_over q h = ground arith

    overdue : (q : QueuedCalculation T) → 3 ≤ q.bypasses → is_overdue q ≡ true
    overdue q h = ground arith

    overdue-IsChosen :
        (q : QueuedCalculation T) → min_by_key overdue_now ≡ some q → IsChosen now queue q
    overdue-IsChosen q h =
        let (m, best) = min_by_key-best overdue_now q h in
        let (m', o) = filter-member is_overdue ready_now q m in
        let (m'', r) = filter-member (is_ready now) queue q m' in
        record {
          queued = m'';
          ready = r;
          overdue_first =
              λ p mp rp op. (passed_over q o, best p (overdue_member p mp rp (overdue p op)));
          foremost = λ seldom p mp rp.
              let often = passed_over q o in absurd (omega (arith, seldom, often));
        }

    foremost-IsChosen :
        (q : QueuedCalculation T)
        → min_by_key overdue_now ≡ none
        → max_by ready_now ≡ some q
        → IsChosen now queue q
    foremost-IsChosen q empty h =
        let (m, best) = max_by-best ready_now q h in
        let (m', r) = filter-member (is_ready now) queue q m in
        record {
          queued = m';
          ready = r;
          overdue_first = λ p mp rp op.
              absurd (min_by_key-empty overdue_now p empty (overdue_member p mp rp (overdue p op)));
          foremost = λ none_overdue p mp rp. best p (member-filter (is_ready now) queue p mp rp);
        }

    choose-IsChosen : (q : QueuedCalculation T) → choose ready_now ≡ some q → IsChosen now queue q
    unfolding choose
    choose-IsChosen q h = elim (Option-cases (min_by_key overdue_now)) [
      | inl empty ↦
          foremost-IsChosen q empty (subst (λ o. or_else o (max_by ready_now) ≡ some q) empty h)
      | inr (b, e) ↦ overdue-IsChosen q (e ∙ subst (λ o. or_else o (max_by ready_now) ≡ some q) e h)
    ]

    choose-none :
        choose ready_now ≡ none → (p : QueuedCalculation T) → Memᴰ p queue → is_ready now p ≡ false
    unfolding choose
    choose-none h p m = elim (Bool-cases (is_ready now p)) [
      | inl r ↦ absurd (elim (Option-cases (min_by_key overdue_now)) [
        | inl empty ↦
            max_by-empty ready_now p (subst (λ o. or_else o (max_by ready_now) ≡ none) empty h)
              (member-filter (is_ready now) queue p m r)
        | inr (b, e) ↦
            (let none' = subst (λ o. or_else o (max_by ready_now) ≡ none) e h in ground arith)
      ])
      | inr w ↦ w
    ]

  finish_select-cell :
      (now : ℕ) (o : Option (QueuedCalculation T)) (s : Scheduler T) (cell : String)
      → (finish_select now o s).0 ≡ some cell
      → (q : QueuedCalculation T) × (o ≡ some q) × (q.cell ≡ cell)
  unfolding finish_select
  finish_select-cell now none s cell h = absurd (ground arith)
  finish_select-cell now (some q) s cell h = (q, refl, ground arith)

  finish_select-none :
      (now : ℕ) (o : Option (QueuedCalculation T)) (s : Scheduler T)
      → (finish_select now o s).0 ≡ none
      → o ≡ none
  unfolding finish_select
  finish_select-none now none s h = refl
  finish_select-none now (some q) s h = absurd (ground arith)

  -- A cell that `select_ready_cell` answers is that of a queued entry which is ready. If any ready entry
  -- has been passed over three times or more, so has it, and it comes no later than any of these;
  -- otherwise no ready entry has a higher priority, and none of the same priority comes before it.
  pub select_ready_cell-IsChosen :
      (now : ℕ) (s : Scheduler T) (cell : String)
      → (select_ready_cell now s).0 ≡ some cell
      → (q : QueuedCalculation T) × IsChosen now (values s.automatic_queue) q × (q.cell ≡ cell)
  unfolding select_ready_cell
  select_ready_cell-IsChosen now s cell h =
      let queue = values s.automatic_queue in
      let (q, e, same) = finish_select-cell now (choose (filter (is_ready now) queue)) s cell h in
      (q, choose-IsChosen now queue q e, same)

  -- Where `select_ready_cell` answers none, no queued entry is ready.
  pub select_ready_cell-none :
      (now : ℕ) (s : Scheduler T)
      → (select_ready_cell now s).0 ≡ none
      → (p : QueuedCalculation T) → Memᴰ p (values s.automatic_queue)
      → is_ready now p ≡ false
  unfolding select_ready_cell
  select_ready_cell-none now s h =
      let queue = values s.automatic_queue in
      choose-none now queue (finish_select-none now (choose (filter (is_ready now) queue)) s h)
