-- ===== src/Prelude/HashMap.antt =====
-- `std::collections::HashMap`, and `BTreeSet` where only membership is read: an association list.
-- The order of its entries is never read by the modelled code without a sort.
use Prim.Native.Nat.{ℕ, zero, suc, ◌≤◌, ◌<◌}
use mathlib.Core.Path.{◌≡◌, refl, subst}
use mathlib.Core.Logic.{inl, inr}
use mathlib.Core.Bool.{Bool, true}
use mathlib.Core.Option.{Option, none, some}
use mathlib.Core.List.{List, [], ◌∷◌}
use native.Mathlib.Omega.{arith}
use sim_expr_tree.Prelude.Tests.{if◌then◌else◌, is_some, length, Bool-cases}
use sim_expr_tree.Prelude.Equality.{Eq, ◌==◌, beq_refl}

abbrev pub HashMap {ℓ κ} : Type ℓ → Type κ → Type (ℓ ⊔ κ)
HashMap K V = List (K × V)

module _ {ℓ κ} {K : Type ℓ} {V : Type κ} ⦃e : Eq K⦄ where
  unfoldable pub get : K → HashMap K V → Option V
  get k [] = none
  get k ((j, v) ∷ m) = if j == k then some v else get k m

  unfoldable pub insert : K → V → HashMap K V → HashMap K V
  insert k v [] = (k, v) ∷ []
  insert k v ((j, w) ∷ m) = if j == k then (k, v) ∷ m else (j, w) ∷ insert k v m

  unfoldable pub remove : K → HashMap K V → HashMap K V
  remove k [] = []
  remove k ((j, v) ∷ m) = let rest = remove k m in if j == k then rest else (j, v) ∷ rest

  abbrev pub contains_key : K → HashMap K V → Bool
  contains_key k m = is_some (get k m)

  pub get-insert :
      (k j : K) (v : V) (m : HashMap K V)
      → get j (insert k v m) ≡ (if k == j then some v else get j m)
  unfolding get insert
  get-insert k j v [] = refl
  get-insert k j v ((i, w) ∷ m) =
      ground (arith, e.beq_iff k j, e.beq_iff i k, e.beq_iff i j, get-insert k j v m)

  pub get-remove :
      (k j : K) (m : HashMap K V) → get j (remove k m) ≡ (if k == j then none else get j m)
  unfolding get remove
  get-remove k j [] = ground arith
  get-remove k j ((i, v) ∷ m) =
      ground (arith, get-remove k j m, e.beq_iff i k, e.beq_iff i j, e.beq_iff k j)

  pub get-insert_self : (k : K) (v : V) (m : HashMap K V) → get k (insert k v m) ≡ some v
  get-insert_self k v m = simp (get-insert, beq_refl)

  pub get-remove_self : (k : K) (m : HashMap K V) → get k (remove k m) ≡ none
  get-remove_self k m = simp (get-remove, beq_refl)

  -- A key that is there takes a place of its own.
  pub length-remove-le : (k : K) (m : HashMap K V) → length (remove k m) ≤ length m
  unfolding remove
  length-remove-le k [] = omega arith
  length-remove-le k ((j, v) ∷ m) = ground (arith, length-remove-le k m)

  pub length-remove :
      (k : K) (v : V) (m : HashMap K V) → get k m ≡ some v → length (remove k m) < length m
  unfolding get remove
  length-remove k v [] h = ground arith
  length-remove k v ((j, w) ∷ m) h = ground (arith, length-remove-le k m, length-remove k v m)

pub ruleset map_laws = (get-insert, get-remove)

-- Pigeonhole: keys that carry the ranks 0 … n - 1, each key one rank, are at least n entries.
module _ {ℓ κ μ} {K : Type ℓ} {V : Type κ} ⦃e : Eq K⦄ (Rank : ℕ → K → Type μ)
    (one_rank : (i j : ℕ) (k : K) → Rank i k → Rank j k → i ≡ j) where
  pub length_of_ranks :
      (n : ℕ) (m : HashMap K V)
      → ((i : ℕ) → i < n → (k : K) × (v : V) × Rank i k × (get k m ≡ some v))
      → n ≤ length m
  length_of_ranks zero m all = omega arith
  length_of_ranks (suc n) m all =
      let (k, v, rank, found) = all n (omega arith) in
      let less = length-remove k v m found in
      let rest =
        length_of_ranks n (remove k m) (λ i below. kept i below k rank (all i (omega arith))) in
      omega (arith, less, rest)
    where
      kept :
          (i : ℕ)
          → i < n
          → (k : K) → Rank n k
          → (j : K) × (v : V) × Rank i j × (get j m ≡ some v)
          → (j : K) × (v : V) × Rank i j × (get j (remove k m) ≡ some v)
      kept i below k rank (j, v, rank', found) = elim (Bool-cases (k == j)) [
        | inl same ↦ absurd (clash same)
        | inr other ↦ (j, v, rank', rw (get-remove k j m, other) found)
      ]
        where
          clash : (k == j) ≡ true → ⊥
          clash same =
              let p : k ≡ j = (e.beq_iff k j).0 same in
              let q = one_rank n i j (subst (Rank n) p rank) rank' in omega arith
