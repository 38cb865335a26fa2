-- ===== src/Core/Namespace/Index.antt =====
-- The index `children` against the places that the records state: `loc` gives the slot of an entry,
-- and the index is its inverse. What an insertion, a removal or a move does to such a pair.
use sim_expr_tree.Prelude.{◌≡◌, ◌≢◌, ◌⊎◌, Option, none, some, Eq, arith}
use sim_expr_tree.Prelude.HashMap.{HashMap, get, insert, remove, get-insert, get-remove}

module _ {K E : Type 0} ⦃k : Eq K⦄ ⦃e : Eq E⦄ where
  pub record IsInverse (loc : E → Option K) (index : HashMap K E) : Type 0 where
    pub placed : (σ : K) (a : E) → get σ index ≡ some a → loc a ≡ some σ
    pub listed : (a : E) (σ : K) → loc a ≡ some σ → get σ index ≡ some a

  module _ {loc loc' : E → Option K} {index : HashMap K E} (inverse : IsInverse loc index) (a : E)
      (others : (b : E) → b ≢ a → loc' b ≡ loc b) where
    -- a new entry at a free slot
    pub insert-IsInverse :
        (new : K)
        → loc a ≡ none
        → loc' a ≡ some new
        → get new index ≡ none
        → IsInverse loc' (insert new a index)
    insert-IsInverse new absent at free = record {
      placed = λ σ b h.
          ground (arith, get-insert new σ a index, k.beq_iff new σ, inverse.placed σ b, others b);
      listed = λ b σ h. ground (
        arith,
        get-insert new σ a index,
        k.beq_iff new σ,
        e.beq_iff b a,
        inverse.listed b σ,
        others b,
      );
    }

    -- an entry gives its slot up
    pub remove-IsInverse :
        (old : K) → loc a ≡ some old → loc' a ≡ none → IsInverse loc' (remove old index)
    remove-IsInverse old at gone = record {
      placed = λ σ b h.
          ground (arith, get-remove old σ index, k.beq_iff old σ, inverse.placed σ b, others b);
      listed = λ b σ h. ground (
        arith,
        get-remove old σ index,
        k.beq_iff old σ,
        e.beq_iff b a,
        inverse.listed b σ,
        inverse.listed a old,
        others b,
      );
    }

    -- an entry moves from one slot to another, or stays
    pub move-IsInverse :
        (old new : K)
        → loc a ≡ some old
        → loc' a ≡ some new
        → (old ≡ new) ⊎ (get new index ≡ none)
        → IsInverse loc' (insert new a (remove old index))
    move-IsInverse old new at at' free = record {
      placed = λ σ b h. ground (
        arith,
        get-insert new σ a (remove old index),
        get-remove old σ index,
        k.beq_iff new σ,
        k.beq_iff old σ,
        inverse.placed σ b,
        others b,
      );
      listed = λ b σ h. ground (
        arith,
        get-insert new σ a (remove old index),
        get-remove old σ index,
        k.beq_iff new σ,
        k.beq_iff old σ,
        e.beq_iff b a,
        inverse.listed b σ,
        inverse.listed a old,
        others b,
      );
    }
