-- ===== src/Prelude/BTreeMap/Entries.antt =====
-- What is read behind the operations on all entries of a map with ascending keys, and how many there are.
use Prim.Native.Nat.{◌≤◌}
use Prim.Native.String.{String}
use mathlib.Core.Path.{◌≡◌, refl}
use mathlib.Core.Option.{Option, none, some}
use mathlib.Core.Bool.{Bool}
use mathlib.Core.List.{[], ◌∷◌}
use mathlib.Core.Logic.{inl, inr}
use native.Mathlib.Omega.{arith}
use sim_expr_tree.Prelude.Tests.{if◌then◌else◌, length, Option-cases}
use sim_expr_tree.Prelude.Equality.{string_eq}
use sim_expr_tree.Prelude.HashMap.{get, remove}
use sim_expr_tree.Prelude.BTreeMap.{BTreeMap, retain_entries, map_values}
use sim_expr_tree.Prelude.BTreeMap.Order.{Below, Ascending, Below-get}
use sim_expr_tree.Prelude.TextOrder.{compare-flip}

module _ {ℓ} {V : Type ℓ} where
  -- an entry under a condition
  abbrev pub kept : (V → Bool) → Option V → Option V
  kept keep none = none
  kept keep (some v) = if keep v then some v else none

  -- the key of the first entry is not read in the others
  first_apart : (j k : String) (m : BTreeMap V) → Below j m → j ≡ k → get k m ≡ none
  first_apart j k m b same = elim (Option-cases (get k m)) [
    | inl free ↦ free
    | inr (v, found) ↦ absurd (clash v found)
  ]
    where
      clash : (v : V) → get k m ≡ some v → ⊥
      clash v found = let h = Below-get j k v m b found in ground (arith, compare-flip j k)

  pub get-retain_entries :
      (keep : String → V → Bool) (k : String) (m : BTreeMap V)
      → Ascending m
      → get k (retain_entries keep m) ≡ kept (keep k) (get k m)
  unfolding retain_entries get
  get-retain_entries keep k [] a = refl
  get-retain_entries keep k ((j, v) ∷ m) a =
      ground (arith, get-retain_entries keep k m a.1, first_apart j k m a.0, string_eq.beq_iff j k)

  pub length-retain_entries :
      (keep : String → V → Bool) (m : BTreeMap V) → length (retain_entries keep m) ≤ length m
  unfolding retain_entries
  length-retain_entries keep [] = omega arith
  length-retain_entries keep ((j, v) ∷ m) = ground (arith, length-retain_entries keep m)

  abbrev pub mapped : (V → V) → Option V → Option V
  mapped f none = none
  mapped f (some v) = some (f v)

  pub get-map_values :
      (f : V → V) (k : String) (m : BTreeMap V) → get k (map_values f m) ≡ mapped f (get k m)
  unfolding map_values get
  get-map_values f k [] = refl
  get-map_values f k ((j, v) ∷ m) = ground (arith, get-map_values f k m)

  pub length-map_values : (f : V → V) (m : BTreeMap V) → length (map_values f m) ≡ length m
  unfolding map_values
  length-map_values f [] = refl
  length-map_values f ((j, v) ∷ m) = ground (arith, length-map_values f m)

  Below-map_values :
      (f : V → V) (k : String) (m : BTreeMap V) → Below k m → Below k (map_values f m)
  unfolding map_values
  Below-map_values f k [] b = tt
  Below-map_values f k ((j, v) ∷ m) b = (b.0, Below-map_values f k m b.1)

  pub map_values-Ascending : (f : V → V) (m : BTreeMap V) → Ascending m → Ascending (map_values f m)
  unfolding map_values
  map_values-Ascending f [] a = tt
  map_values-Ascending f ((j, v) ∷ m) a = (Below-map_values f j m a.0, map_values-Ascending f m a.1)

  Below-remove : (j k : String) (m : BTreeMap V) → Below k m → Below k (remove j m)
  unfolding remove
  Below-remove j k [] b = tt
  Below-remove j k ((i, v) ∷ m) b = ground (arith, Below-remove j k m b.1)

  pub remove-Ascending : (j : String) (m : BTreeMap V) → Ascending m → Ascending (remove j m)
  unfolding remove
  remove-Ascending j [] a = tt
  remove-Ascending j ((i, v) ∷ m) a =
      ground (arith, remove-Ascending j m a.1, Below-remove j i m a.0)
