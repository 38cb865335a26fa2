-- ===== src/Prelude/BTreeMap.antt =====
-- `std::collections::BTreeMap` with text keys: an association list in the order of the keys. Reading and
-- removing are those of `HashMap`; an insertion keeps the order, so `values` walks the keys upwards.
pub mod Order
pub mod Entries
use Prim.Native.Nat.{Ordering}
use Prim.Native.String.{String, compare}
use text.Mathlib.TextEquality.{eq_iff}
use mathlib.Core.Path.{◌≡◌, refl}
use mathlib.Core.Bool.{Bool}
use mathlib.Core.Option.{Option, none, some}
use mathlib.Core.List.{List, [], ◌∷◌, map}
use native.Mathlib.Omega.{arith}
use sim_expr_tree.Prelude.Tests.{if◌then◌else◌}
use sim_expr_tree.Prelude.Equality.{◌==◌, string_eq}
use sim_expr_tree.Prelude.HashMap.{get}

abbrev pub BTreeMap {ℓ} : Type ℓ → Type ℓ
BTreeMap V = List (String × V)

module _ {ℓ} {V : Type ℓ} where
  unfoldable pub insert : String → V → BTreeMap V → BTreeMap V
  insert k v [] = (k, v) ∷ []
  insert k v ((j, w) ∷ m) = elim (compare k j) [
    | Ordering.lt ↦ (k, v) ∷ (j, w) ∷ m
    | Ordering.eq ↦ (k, v) ∷ m
    | Ordering.gt ↦ (j, w) ∷ insert k v m
  ]

  -- the entries of another map, in its order
  unfoldable pub extend : BTreeMap V → BTreeMap V → BTreeMap V
  unfolding insert
  extend m [] = m
  extend m ((k, v) ∷ more) = extend (insert k v m) more

  -- `retain` by the key
  unfoldable pub retain : (String → Bool) → BTreeMap V → BTreeMap V
  retain keep [] = []
  retain keep ((k, v) ∷ m) = let more = retain keep m in if keep k then (k, v) ∷ more else more

  -- `retain` by the key and the value
  unfoldable pub retain_entries : (String → V → Bool) → BTreeMap V → BTreeMap V
  retain_entries keep [] = []
  retain_entries keep ((k, v) ∷ m) =
      let more = retain_entries keep m in if keep k v then (k, v) ∷ more else more

  -- a write through `values_mut`
  unfoldable pub map_values : (V → V) → BTreeMap V → BTreeMap V
  map_values f [] = []
  map_values f ((k, v) ∷ m) = (k, f v) ∷ map_values f m

  pub get-retain :
      (keep : String → Bool) (j : String) (m : BTreeMap V)
      → get j (retain keep m) ≡ (if keep j then get j m else none)
  unfolding retain get
  get-retain keep j [] = ground arith
  get-retain keep j ((k, v) ∷ m) = ground (arith, get-retain keep j m, eq_iff k j)

  abbrev pub values : BTreeMap V → List V
  values m = map (λ kv. kv.1) m

  pub get-insert :
      (k j : String) (v : V) (m : BTreeMap V)
      → get j (insert k v m) ≡ (if k == j then some v else get j m)
  unfolding get insert
  get-insert k j v [] = refl
  get-insert k j v ((i, w) ∷ m) =
      ground (arith, eq_iff k i, eq_iff i j, eq_iff k j, get-insert k j v m)

  -- What is read after an extension: the last write of the key among the new entries, or what was there.
  abbrev pub over : Option V → Option V → Option V
  over none old = old
  over (some v) old = some v

  unfoldable pub last_write : String → BTreeMap V → Option V
  last_write j [] = none
  last_write j ((k, v) ∷ more) = over (last_write j more) (if k == j then some v else none)

  pub get-extend :
      (j : String) (m more : BTreeMap V)
      → get j (extend m more) ≡ over (last_write j more) (get j m)
  unfolding extend last_write
  get-extend j m [] = refl
  get-extend j m ((k, v) ∷ more) =
      ground (arith, get-extend j (insert k v m) more, get-insert k j v m)
