-- ===== src/Prelude/TextOrder.antt =====
-- The order of texts, that of Rust's `str`: strict, transitive and total.
use Prim.Native.Nat.{Ordering}
use Prim.Native.String.compare
use Prim.Native.String.{String, [], ◌∷◌, compare}
use mathlib.Core.Path.{◌≡◌, refl, sym, ap, ◌∙◌}
use native.Mathlib.Omega.{arith}

-- the converse of an answer
abbrev pub flip : Ordering → Ordering
flip Ordering.lt = Ordering.gt
flip Ordering.eq = Ordering.eq
flip Ordering.gt = Ordering.lt

pub compare-flip : (s t : String) → compare t s ≡ flip (compare s t)
compare-flip [] [] = refl
compare-flip [] (d ∷ t) = compare.cons-nil d t ∙ ap flip (sym (compare.nil-cons d t))
compare-flip (c ∷ s) [] = compare.nil-cons c s ∙ ap flip (sym (compare.cons-nil c s))
compare-flip (c ∷ s) (d ∷ t) =
    ground (arith, compare-flip s t, compare.cons-cons c d s t, compare.cons-cons d c t s)

pub compare_trans :
    (s t u : String)
    → compare s t ≡ Ordering.lt
    → compare t u ≡ Ordering.lt
    → compare s u ≡ Ordering.lt
compare_trans [] [] u h k = k
compare_trans [] (d ∷ t) [] h k = ground (arith, compare.cons-nil d t)
compare_trans [] (d ∷ t) (e ∷ u) h k = compare.nil-cons e u
compare_trans (c ∷ s) [] u h k = ground (arith, compare.cons-nil c s)
compare_trans (c ∷ s) (d ∷ t) [] h k = ground (arith, compare.cons-nil d t)
compare_trans (c ∷ s) (d ∷ t) (e ∷ u) h k = ground (
  arith,
  compare_trans s t u,
  compare.cons-cons c d s t,
  compare.cons-cons d e t u,
  compare.cons-cons c e s u,
)
