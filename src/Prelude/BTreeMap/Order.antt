-- ===== src/Prelude/BTreeMap/Order.antt =====
-- The keys of a `BTreeMap` ascend, and the operations keep them so.
use Prim.Native.Nat.{suc, Ordering}
use Prim.Native.String.{String, compare}
use text.Mathlib.TextEquality.{path_by_compare}
use mathlib.Core.Path.{◌≡◌, refl, subst}
use mathlib.Core.Logic.{inl, inr}
use mathlib.Core.Option.{none, some}
use mathlib.Core.Bool.{Bool, false}
use mathlib.Core.List.{[], ◌∷◌, ◌++◌}
use native.Mathlib.Omega.{arith}
use sim_expr_tree.Prelude.Tests.{if◌then◌else◌, Bool-cases, length}
use sim_expr_tree.Prelude.Equality.{◌==◌, string_eq, beq_refl}
use sim_expr_tree.Prelude.HashMap.{get, contains_key}
use sim_expr_tree.Prelude.TextOrder.{compare-flip, compare_trans}
use sim_expr_tree.Prelude.BTreeMap.{BTreeMap, insert, retain, retain_entries}

module _ {ℓ} {V : Type ℓ} where
  -- every key comes after `k`
  abbrev pub Below : String → BTreeMap V → Type 0
  Below k [] = Unit
  Below k ((j, v) ∷ m) = (compare k j ≡ Ordering.lt) × Below k m

  abbrev pub Ascending : BTreeMap V → Type 0
  Ascending [] = Unit
  Ascending ((k, v) ∷ m) = Below k m × Ascending m

  Below-insert :
      (j k : String) (v : V) (m : BTreeMap V)
      → compare j k ≡ Ordering.lt
      → Below j m
      → Below j (insert k v m)
  unfolding insert
  Below-insert j k v [] h b = (h, tt)
  Below-insert j k v ((i, w) ∷ m) h b = ground (arith, Below-insert j k v m h b.1)

  Below-trans : (j k : String) (m : BTreeMap V) → compare j k ≡ Ordering.lt → Below k m → Below j m
  Below-trans j k [] h b = tt
  Below-trans j k ((i, w) ∷ m) h b = (compare_trans j k i h b.0, Below-trans j k m h b.1)

  pub insert-Ascending :
      (k : String) (v : V) (m : BTreeMap V) → Ascending m → Ascending (insert k v m)
  unfolding insert
  insert-Ascending k v [] a = (tt, tt)
  insert-Ascending k v ((i, w) ∷ m) a = ground (
    arith,
    insert-Ascending k v m a.1,
    Below-insert i k v m,
    Below-trans k i m,
    compare-flip k i,
    path_by_compare k i,
  )

  Below-retain :
      (keep : String → Bool) (k : String) (m : BTreeMap V) → Below k m → Below k (retain keep m)
  unfolding retain
  Below-retain keep k [] b = tt
  Below-retain keep k ((j, v) ∷ m) b = ground (arith, Below-retain keep k m b.1)

  pub retain-Ascending :
      (keep : String → Bool) (m : BTreeMap V) → Ascending m → Ascending (retain keep m)
  unfolding retain
  retain-Ascending keep [] a = tt
  retain-Ascending keep ((j, v) ∷ m) a =
      ground (arith, retain-Ascending keep m a.1, Below-retain keep j m a.0)

  -- a key that comes after all others is put last
  pub insert_last :
      (k : String) (v : V) (m l : BTreeMap V)
      → Ascending (m ++ (k, v) ∷ l)
      → insert k v m ≡ m ++ (k, v) ∷ []
  unfolding insert
  insert_last k v [] l a = refl
  insert_last k v ((j, w) ∷ m) l a =
      ground (arith, insert_last k v m l a.1, compare-flip j k, below_middle j k v m l a.0)
    where
      below_middle :
          (j k : String) (v : V) (m l : BTreeMap V)
          → Below j (m ++ (k, v) ∷ l)
          → compare j k ≡ Ordering.lt
      below_middle j k v [] l b = b.0
      below_middle j k v ((i, w) ∷ m) l b = below_middle j k v m l b.1

  -- what holds of every entry
  abbrev pub Every : (String → V → Type 0) → BTreeMap V → Type 0
  Every P [] = Unit
  Every P ((k, v) ∷ m) = P k v × Every P m

  pub Below-get :
      (j k : String) (v : V) (m : BTreeMap V)
      → Below j m
      → get k m ≡ some v
      → compare j k ≡ Ordering.lt
  unfolding get
  Below-get j k v [] b h = ground arith
  Below-get j k v ((i, w) ∷ m) b h = elim (Bool-cases (i == k)) [
    | inl same ↦
        let e : i ≡ k = (string_eq.beq_iff i k).0 same in
        subst (λ x. compare j x ≡ Ordering.lt) e b.0
    | inr other ↦ Below-get j k v m b.1 (rw other at h)
  ]

  -- where the keys ascend, each entry is the one that is read under its key
  pub Every-get :
      (P : String → V → Type 0) (m : BTreeMap V)
      → Ascending m
      → ((k : String) (v : V) → get k m ≡ some v → P k v)
      → Every P m
  unfolding get
  Every-get P [] a all = tt
  Every-get P ((k, v) ∷ m) a all =
      (all k v (rw (beq_refl k) refl), Every-get P m a.1 λ j w found. all j w (later j w found))
    where
      later :
          (j : String) (w : V) → get j m ≡ some w → (if k == j then some v else get j m) ≡ some w
      later j w found =
          let b = Below-get k j w m a.0 found in
          let apart : (k == j) ≡ false = ground arith in rw apart found

  -- Where the keys ascend, a write of a key that is there takes no place, and any other takes one.
  pub length-insert :
      (k : String) (v : V) (m : BTreeMap V)
      → Ascending m
      → length (insert k v m) ≡ (if contains_key k m then length m else suc (length m))
  unfolding insert get
  length-insert k v [] a = refl
  length-insert k v ((j, w) ∷ m) a = ground (
    arith,
    length-insert k v m a.1,
    compare-flip j k,
    path_by_compare k j,
    string_eq.beq_iff j k,
    no_key k j m a.0,
  )
    where
      no_key :
          (k j : String) (m : BTreeMap V) → Below j m → compare k j ≡ Ordering.lt → get k m ≡ none
      no_key k j [] b h = refl
      no_key k j ((i, w) ∷ m) b h =
          ground (arith, no_key k j m b.1 h, compare-flip k j, string_eq.beq_iff i k)

  Below-retain_entries :
      (keep : String → V → Bool) (k : String) (m : BTreeMap V)
      → Below k m
      → Below k (retain_entries keep m)
  unfolding retain_entries
  Below-retain_entries keep k [] b = tt
  Below-retain_entries keep k ((j, v) ∷ m) b = ground (arith, Below-retain_entries keep k m b.1)

  pub retain_entries-Ascending :
      (keep : String → V → Bool) (m : BTreeMap V) → Ascending m → Ascending (retain_entries keep m)
  unfolding retain_entries
  retain_entries-Ascending keep [] a = tt
  retain_entries-Ascending keep ((j, v) ∷ m) a =
      ground (arith, retain_entries-Ascending keep m a.1, Below-retain_entries keep j m a.0)
