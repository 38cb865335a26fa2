-- ===== src/Book/Model/Sorted.antt =====
-- `sort` and `dedup` of references: the result ascends strictly and holds the same references.
use Prim.Native.Nat.{Ordering}
use text.Mathlib.TextEquality.{path_by_compare, eq_iff}
use sim_expr_tree.Prelude.{
  Bool, true, false, ◌||◌, ◌≡◌, ◌↔◌, refl, subst, ◌∙◌, inl, inr, List, [], ◌∷◌, arith, string_eq,
  Bool-cases,
}
use sim_expr_tree.Prelude.TextOrder.{flip, compare-flip}
use sim_expr_tree.Book.Model.{
  EvidenceRef, compare_evidence, evidence_beq, insert_sorted, sort, drop_repeats, dedup,
}

compare_evidence-flip : (a b : EvidenceRef) → compare_evidence b a ≡ flip (compare_evidence a b)
compare_evidence-flip a b =
    ground (arith, compare-flip a.kind b.kind, compare-flip a.content_key b.content_key)

pub evidence_beq_iff : (a b : EvidenceRef) → (evidence_beq a b ≡ true) ↔ (a ≡ b)
evidence_beq_iff a b = ground (arith, eq_iff a.kind b.kind, eq_iff a.content_key b.content_key)

compare_evidence_eq : (a b : EvidenceRef) → compare_evidence a b ≡ Ordering.eq → a ≡ b
compare_evidence_eq a b h =
    ground (arith, path_by_compare a.kind b.kind, path_by_compare a.content_key b.content_key)

abbrev not_greater : Ordering → Bool
not_greater Ordering.gt = false
not_greater _ = true

-- from `r` on, no element is less than the one before it
abbrev SortedFrom : EvidenceRef → List EvidenceRef → Type 0
SortedFrom r [] = Unit
SortedFrom r (s ∷ rest) = (not_greater (compare_evidence r s) ≡ true) × SortedFrom s rest

abbrev Sorted : List EvidenceRef → Type 0
Sorted [] = Unit
Sorted (r ∷ rest) = SortedFrom r rest

-- each element is greater than the one before it
abbrev pub AscendsFrom : EvidenceRef → List EvidenceRef → Type 0
AscendsFrom r [] = Unit
AscendsFrom r (s ∷ rest) = (compare_evidence r s ≡ Ordering.lt) × AscendsFrom s rest

abbrev pub Ascends : List EvidenceRef → Type 0
Ascends [] = Unit
Ascends (r ∷ rest) = AscendsFrom r rest

insert_sorted-SortedFrom :
    (x r : EvidenceRef) (l : List EvidenceRef)
    → not_greater (compare_evidence x r) ≡ true
    → SortedFrom x l
    → SortedFrom x (insert_sorted r l)
unfolding insert_sorted
insert_sorted-SortedFrom x r [] h s = (h, tt)
insert_sorted-SortedFrom x r (y ∷ l) h s =
    ground (arith, insert_sorted-SortedFrom y r l, compare_evidence-flip r y)

insert_sorted-Sorted :
    (r : EvidenceRef) (l : List EvidenceRef) → Sorted l → Sorted (insert_sorted r l)
unfolding insert_sorted
insert_sorted-Sorted r [] s = tt
insert_sorted-Sorted r (y ∷ l) s =
    ground (arith, insert_sorted-SortedFrom y r l, compare_evidence-flip r y)

sort-Sorted : (l : List EvidenceRef) → Sorted (sort l)
unfolding sort
sort-Sorted [] = tt
sort-Sorted (r ∷ l) = insert_sorted-Sorted r (sort l) (sort-Sorted l)

drop_repeats-AscendsFrom :
    (r : EvidenceRef) (l : List EvidenceRef) → SortedFrom r l → AscendsFrom r (drop_repeats r l)
unfolding drop_repeats
drop_repeats-AscendsFrom r [] s = tt
drop_repeats-AscendsFrom r (y ∷ l) s = elim (Bool-cases (evidence_beq y r)) [
  | inl same ↦
      let e : y ≡ r = (evidence_beq_iff y r).0 same in
      rw same (drop_repeats-AscendsFrom r l (subst (λ x. SortedFrom x l) e s.1))
  | inr other ↦ rw other (
    ground (arith, compare_evidence_eq r y, evidence_beq_iff y r),
    drop_repeats-AscendsFrom y l s.1,
  )
]

dedup-Ascends : (l : List EvidenceRef) → Sorted l → Ascends (dedup l)
unfolding dedup
dedup-Ascends [] s = tt
dedup-Ascends (r ∷ l) s = drop_repeats-AscendsFrom r l s

unfoldable pub holds : EvidenceRef → List EvidenceRef → Bool
holds r [] = false
holds r (s ∷ l) = evidence_beq s r || holds r l

holds-insert_sorted :
    (r s : EvidenceRef) (l : List EvidenceRef)
    → holds r (insert_sorted s l) ≡ (evidence_beq s r || holds r l)
unfolding holds insert_sorted
holds-insert_sorted r s [] = refl
holds-insert_sorted r s (y ∷ l) = ground (arith, holds-insert_sorted r s l)

holds-sort : (r : EvidenceRef) (l : List EvidenceRef) → holds r (sort l) ≡ holds r l
unfolding sort holds
holds-sort r [] = refl
holds-sort r (s ∷ l) = ground (arith, holds-insert_sorted r s (sort l), holds-sort r l)

holds-drop_repeats :
    (r s : EvidenceRef) (l : List EvidenceRef)
    → (evidence_beq s r || holds r (drop_repeats s l)) ≡ (evidence_beq s r || holds r l)
unfolding drop_repeats holds
holds-drop_repeats r s [] = refl
holds-drop_repeats r s (y ∷ l) = ground (
  arith,
  holds-drop_repeats r s l,
  holds-drop_repeats r y l,
  evidence_beq_iff y s,
  evidence_beq_iff s r,
  evidence_beq_iff y r,
)

holds-dedup : (r : EvidenceRef) (l : List EvidenceRef) → holds r (dedup l) ≡ holds r l
unfolding dedup holds
holds-dedup r [] = refl
holds-dedup r (s ∷ l) = holds-drop_repeats r s l

-- Sorted and deduplicated references ascend strictly, so none stands twice, and are the ones that were
-- given.
pub dedup-sort_lem :
    (l : List EvidenceRef)
    → Ascends (dedup (sort l)) × ((r : EvidenceRef) → holds r (dedup (sort l)) ≡ holds r l)
dedup-sort_lem l =
    (dedup-Ascends (sort l) (sort-Sorted l), λ r. holds-dedup r (sort l) ∙ holds-sort r l)
