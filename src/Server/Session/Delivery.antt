-- ===== src/Server/Session/Delivery.antt =====
-- What a watch delivers.
use mathlib.Core.List.{append_assoc, append-nil}
use sim_expr_tree.Prelude.{
  ℕ, suc, ◌+◌, ◌-◌, ◌^◌, ◌≤◌, ◌<◌, true, false, ◌≡◌, refl, sym, ap, ◌∙◌, inl, inr, List, [], ◌∷◌,
  ◌++◌, arith, length, Bool-cases, ◌==◌, string_eq, nat_eq, saturating_add,
}
use sim_expr_tree.Server.Model.{ChangeEvent, WatchState, push, pop_front, drop_front}

unfoldable pub push_all : ℕ → List ChangeEvent → WatchState → WatchState
unfolding push
push_all capacity [] w = w
push_all capacity (e ∷ events) w = push_all capacity events (push e capacity w)

-- how many of the events are more than the capacity
abbrev pub excess : ℕ → List ChangeEvent → ℕ
excess capacity events = length events - capacity

saturating_add-suc : (d n : ℕ) → saturating_add (saturating_add d 1) n ≡ saturating_add d (suc n)
unfolding saturating_add
saturating_add-suc d n = ground arith

saturating_add-zero : (d : ℕ) → d < 2 ^ 64 → saturating_add d 0 ≡ d
unfolding saturating_add
saturating_add-zero d h = ground arith

length-++ : (l m : List ChangeEvent) → length (l ++ m) ≡ length l + length m
length-++ [] m = omega arith
length-++ (x ∷ l) m = omega (arith, length-++ l m)

-- what a watch is after some pushes: the newest events in their order, and the count of those that were lost
abbrev pub IsWindow : ℕ → List ChangeEvent → WatchState → WatchState → Type 0
IsWindow capacity events old new =
    (new.events ≡ drop_front (excess capacity (old.events ++ events)) (old.events ++ events))
    × (new.dropped ≡ saturating_add old.dropped (excess capacity (old.events ++ events)))
    × (new.cancelled ≡ false)

module _ (capacity : ℕ) (positive : 0 < capacity) where
  -- a push on a full queue moves the window by one
  full_step :
      (old : List ChangeEvent) (e : ChangeEvent) (events : List ChangeEvent)
      → length old ≡ capacity
      → (excess capacity (old ++ e ∷ events)
          ≡ suc (excess capacity ((pop_front old ++ e ∷ []) ++ events)))
        × (drop_front (excess capacity (old ++ e ∷ events)) (old ++ e ∷ events)
            ≡ drop_front
                (excess capacity ((pop_front old ++ e ∷ []) ++ events))
                ((pop_front old ++ e ∷ []) ++ events))
  full_step [] e events h = absurd (omega arith)
  full_step (x ∷ l) e events h =
      let before : excess capacity (x ∷ l ++ e ∷ events) ≡ suc (length events) =
        omega (arith, h, length-++ l (e ∷ events)) in
      let after : excess capacity (l ++ e ∷ events) ≡ length events =
        omega (arith, h, length-++ l (e ∷ events)) in
      rw (append_assoc l (e ∷ []) events, before, after) (refl, refl)

  length-push_full :
      (l : List ChangeEvent) (e : ChangeEvent)
      → length l ≡ capacity
      → length (pop_front l ++ e ∷ []) ≤ capacity
  length-push_full [] e h = omega (arith, h, positive)
  length-push_full (x ∷ l) e h = omega (arith, h, length-++ l (e ∷ []))

  saturating_add-small : (d n : ℕ) → saturating_add d n < 2 ^ 64
  unfolding saturating_add
  saturating_add-small d n = ground arith

  push-full :
      (e : ChangeEvent) (w : WatchState)
      → (length w.events == capacity) ≡ true
      → w.cancelled ≡ false
      → push e capacity w
        ≡ record w { events = pop_front w.events ++ e ∷ []; dropped = saturating_add w.dropped 1 }
  unfolding push
  push-full e w full live = rw (push, live, full) refl

  push-room :
      (e : ChangeEvent) (w : WatchState)
      → (length w.events == capacity) ≡ false
      → w.cancelled ≡ false
      → push e capacity w ≡ record w { events = w.events ++ e ∷ [] }
  unfolding push
  push-room e w room live = rw (push, live, room) refl

  -- On a live watch that is within its capacity, any number of pushes leaves exactly the newest events that
  -- the capacity allows, in the order in which they came, and adds the number of the others to its count of
  -- dropped events, up to the greatest u64.
  pub push_all-IsWindow :
      (events : List ChangeEvent) (w : WatchState)
      → w.dropped < 2 ^ 64
      → w.cancelled ≡ false
      → length w.events ≤ capacity
      → IsWindow capacity events w (push_all capacity events w)
  unfolding push_all
  push_all-IsWindow [] w counted live h =
      let none_lost : excess capacity (w.events ++ []) ≡ 0 =
        omega (arith, h, length-++ w.events []) in
      rw (none_lost, append-nil w.events) (refl, sym (saturating_add-zero w.dropped counted), live)
  push_all-IsWindow (e ∷ events) w counted live h =
      elim (Bool-cases (length w.events == capacity)) [
        | inl full ↦
            let e' : length w.events ≡ capacity = ground arith in
            let (count, window) = full_step w.events e events e' in
            let pushed = record w {
              events = pop_front w.events ++ e ∷ [];
              dropped = saturating_add w.dropped 1;
            } in
            let (shown, lost, alive) =
              push_all-IsWindow events pushed (saturating_add-small w.dropped 1) live
                (length-push_full w.events e e') in
            rw (push_all, push-full e w full live)
              (
                shown ∙ sym window,
                lost ∙ saturating_add-suc w.dropped _ ∙ ap (saturating_add w.dropped) (sym count),
                alive,
              )
        | inr room ↦
            let pushed = record w { events = w.events ++ e ∷ [] } in
            let (shown, lost, alive) =
              push_all-IsWindow events pushed counted live
                (ground (arith, length-++ w.events (e ∷ []))) in
            rw (push_all, push-room e w room live, sym (append_assoc w.events (e ∷ []) events))
              (shown, lost, alive)
      ]
