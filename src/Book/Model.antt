-- ===== src/Book/Model.antt =====
-- crates/sim-lib-expedition-book/src/model.rs: references to evidence, objections, branches.
pub mod Sorted
use Prim.Native.Nat.{Ordering}
use Prim.Native.String.{compare}
use sim_expr_tree.Prelude.{
  ℕ, String, Bool, true, false, not, ◌&&◌, ◌||◌, Option, none, some, List, [], ◌∷◌, ◌==◌, string_eq,
  if◌then◌else◌,
}
use sim_expr_tree.Prelude.BTreeMap.{BTreeMap}

pub record EvidenceRef : Type 0 where
  pub kind : String
  pub content_key : String

-- `EvidenceRef::new`
unfoldable pub new_evidence : String → String → Option EvidenceRef
new_evidence kind content_key =
    if (not (kind == "") && not (content_key == ""))
      && (kind == "run" || (kind == "claim" || (kind == "source" || kind == "artifact")))
    then some (record { kind = kind; content_key = content_key })
    else none

pub record Objection : Type 0 where
  pub id : String
  pub statement : String
  pub evidence : List EvidenceRef

pub record Branch : Type 0 where
  pub id : String
  pub parent : Option String
  pub thesis : String
  pub evidence : List EvidenceRef
  pub objections : BTreeMap Objection
  pub next_play : Option String
  pub sealed : Bool

pub record ExpeditionBookSnapshot : Type 0 where
  pub book_id : String
  pub revision : ℕ
  pub payload : String

-- the derived `Ord`: the kinds first, then the keys
abbrev pub then_compare : Ordering → Ordering → Ordering
then_compare Ordering.lt o = Ordering.lt
then_compare Ordering.eq o = o
then_compare Ordering.gt o = Ordering.gt

abbrev pub compare_evidence : EvidenceRef → EvidenceRef → Ordering
compare_evidence a b = then_compare (compare a.kind b.kind) (compare a.content_key b.content_key)

-- the derived `PartialEq`
abbrev pub evidence_beq : EvidenceRef → EvidenceRef → Bool
evidence_beq a b = a.kind == b.kind && a.content_key == b.content_key

-- `Vec::sort`, which is stable: an element goes before the first that is greater
unfoldable pub insert_sorted : EvidenceRef → List EvidenceRef → List EvidenceRef
insert_sorted r [] = r ∷ []
insert_sorted r (s ∷ rest) = elim (compare_evidence r s) [
  | Ordering.lt ↦ r ∷ s ∷ rest
  | Ordering.eq ↦ r ∷ s ∷ rest
  | Ordering.gt ↦ s ∷ insert_sorted r rest
]

unfoldable pub sort : List EvidenceRef → List EvidenceRef
unfolding insert_sorted
sort [] = []
sort (r ∷ rest) = insert_sorted r (sort rest)

-- `Vec::dedup`: of a run of equal elements the first stays
unfoldable pub drop_repeats : EvidenceRef → List EvidenceRef → List EvidenceRef
drop_repeats last [] = []
drop_repeats last (r ∷ rest) =
    let same = drop_repeats last rest in
    let other = r ∷ drop_repeats r rest in if evidence_beq r last then same else other

unfoldable pub dedup : List EvidenceRef → List EvidenceRef
unfolding drop_repeats
dedup [] = []
dedup (r ∷ rest) = r ∷ drop_repeats r rest
