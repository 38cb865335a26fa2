-- ===== src/Book/Archive/Kept.antt =====
-- What a replay reports, and what keeps it.
use sim_expr_tree.Prelude.{
  String, Bool, true, false, not, ◌&&◌, ◌==◌, beq_refl, ◌≡◌, ◌≢◌, inl, inr, refl, ap, ◌∙◌, Option,
  none, some, List, [], ◌∷◌, ok, arith, string_eq, Bool-cases,
}
use sim_expr_tree.Prelude.HashMap.{get}
use sim_expr_tree.Prelude.BTreeMap.{BTreeMap, values, get-insert}
use sim_expr_tree.Prelude.BTreeMap.Order.{Every}
use sim_expr_tree.Book.Model.{EvidenceRef, Branch, evidence_beq, sort, dedup}
use sim_expr_tree.Book.Model.Sorted.{Ascends, holds, dedup-sort_lem, evidence_beq_iff}
use sim_expr_tree.Book.Edit.{ExpeditionBook}
use sim_expr_tree.Book.Edit.Valid.{IsValid}
use sim_expr_tree.Book.Codec.Loops.{normal_name, normal_branches}
use sim_expr_tree.Book.Codec.{encode}
use sim_expr_tree.Book.Codec.Round.{Sizes, normal, decode-encode}
use sim_expr_tree.Book.Archive
use sim_expr_tree.Book.Archive.{
  Archive, ReplayOutcome, reproduced, missing_evidence, all_refs, push_missing, outcome, replay,
}

-- the calls that change an archive
pub data ArchiveCall : Type 0 where
  export : String → ExpeditionBook → String → ArchiveCall
  delete_projection : String → ArchiveCall

unfoldable pub apply : ArchiveCall → Archive → Archive
unfolding Archive.export Archive.delete_projection
apply (export name book projection) a = Archive.export name book projection a
apply (delete_projection name) a = (Archive.delete_projection name a).1

unfoldable pub apply_all : List ArchiveCall → Archive → Archive
unfolding apply
apply_all [] a = a
apply_all (call ∷ calls) a = apply_all calls (apply call a)

-- no call exports under the name
unfoldable pub spares : String → List ArchiveCall → Bool
spares name [] = true
spares name (export other book projection ∷ calls) = not (other == name) && spares name calls
spares name (delete_projection other ∷ calls) = spares name calls

-- no optional name is the empty text, which a codec cannot tell from none
abbrev pub IsNotEmpty : Option String → Type 0
IsNotEmpty name = name ≢ some ""

abbrev pub BranchIsNamed : String → Branch → Type 0
BranchIsNamed key b = IsNotEmpty b.parent × IsNotEmpty b.next_play

abbrev pub IsNamed : ExpeditionBook → Type 0
IsNamed book = IsNotEmpty book.choice × Every BranchIsNamed book.branches

normal_name-IsNotEmpty : (name : Option String) → IsNotEmpty name → normal_name name ≡ name
normal_name-IsNotEmpty none h = refl
normal_name-IsNotEmpty (some s) h = elim (Bool-cases (s == "")) [
  | inl empty ↦ absurd (h (ap some ((string_eq.beq_iff s "").0 empty)))
  | inr full ↦ rw full refl
]

normal_branches-BranchIsNamed :
    (m : BTreeMap Branch) → Every BranchIsNamed m → normal_branches m ≡ m
normal_branches-BranchIsNamed [] h = refl
normal_branches-BranchIsNamed ((k, b) ∷ m) ((parent, play), rest) =
    rw
      (
        normal_name-IsNotEmpty b.parent parent,
        normal_name-IsNotEmpty b.next_play play,
        normal_branches-BranchIsNamed m rest,
      )
      refl

normal-IsNamed : (book : ExpeditionBook) → IsNamed book → normal book ≡ book
normal-IsNamed book h =
    rw (normal_name-IsNotEmpty book.choice h.0, normal_branches-BranchIsNamed book.branches h.1)
      refl

apply_all-exports :
    (name : String) (calls : List ArchiveCall) (a : Archive)
    → spares name calls ≡ true
    → get name (apply_all calls a).exports ≡ get name a.exports
unfolding apply_all apply spares Archive.export Archive.delete_projection
apply_all-exports name [] a h = refl
apply_all-exports name (export other book projection ∷ calls) a h =
    let apart : (other == name) ≡ false = ground arith in
    apply_all-exports name calls _ (ground arith)
    ∙ get-insert other name (encode book) a.exports
    ∙ rw apart refl
apply_all-exports name (delete_projection other ∷ calls) a h = apply_all-exports name calls _ h

module _ (exists : EvidenceRef → Bool) where
  holds-push_missing :
      (r : EvidenceRef) (l : List EvidenceRef)
      → holds r (push_missing exists l) ≡ (holds r l && not (exists r))
  unfolding holds push_missing
  holds-push_missing r [] = refl
  holds-push_missing r (s ∷ l) = elim (Bool-cases (evidence_beq s r)) [
    | inl same ↦
        let e : s ≡ r = (evidence_beq_iff s r).0 same in
        let again : exists s ≡ exists r = ap exists e in ground (arith, holds-push_missing r l)
    | inr other ↦ ground (arith, holds-push_missing r l)
  ]

  -- what a replay of a book is to say
  abbrev pub Reports : ExpeditionBook → ReplayOutcome → Type 0
  Reports book (reproduced other) =
      (other ≡ book)
      × ((r : EvidenceRef) → holds r (all_refs (values book.branches)) ≡ true → exists r ≡ true)
  Reports book (missing_evidence other missing) =
      (other ≡ book)
      × (missing ≢ [])
      × Ascends missing
      × ((r : EvidenceRef)
          → holds r missing ≡ (holds r (all_refs (values book.branches)) && not (exists r)))

  outcome-Reports : (book : ExpeditionBook) → Reports book (outcome exists book)
  unfolding outcome holds
  outcome-Reports book =
      let refs = all_refs (values book.branches) in
      let (ascends, same) = dedup-sort_lem (push_missing exists refs) in
      go (dedup (sort (push_missing exists refs))) ascends (λ r. same r ∙ holds-push_missing r refs)
    where
      go :
          (l : List EvidenceRef)
          → Ascends l
          → ((r : EvidenceRef)
              → holds r l ≡ (holds r (all_refs (values book.branches)) && not (exists r)))
          → Reports book
              (elim l [ [] ↦ reproduced book | r ∷ missing ↦ missing_evidence book (r ∷ missing) ])
      go [] ascends same = (refl, λ r held. none_missing r held (same r))
        where
          none_missing :
              (r : EvidenceRef)
              → holds r (all_refs (values book.branches)) ≡ true
              → holds r [] ≡ (holds r (all_refs (values book.branches)) && not (exists r))
              → exists r ≡ true
          none_missing r held same = ground arith
      go (r ∷ l) ascends same = (refl, (λ h. ground arith), ascends, same)

  -- After a valid book of a size that memory holds, none of whose optional names is the empty text, is exported,
  -- and after any calls that do not export under its name again, projections deleted or not, a replay gives
  -- this very book: reproduced where every reference of a branch or an objection exists, and otherwise with
  -- exactly the missing ones, in ascending order and none twice.
  pub replay-export :
      (name : String) (book : ExpeditionBook) (projection : String) (calls : List ArchiveCall)
      (a : Archive)
      → IsValid book
      → Sizes book
      → IsNamed book
      → spares name calls ≡ true
      → (o : ReplayOutcome) × (replay exists name
            (apply_all calls (Archive.export name book projection a))
          ≡ ok o)
        × Reports book o
  unfolding replay Archive.export
  replay-export name book projection calls a valid sizes named spared =
      (outcome exists book, found, outcome-Reports book)
    where
      found :
          replay exists name (apply_all calls (Archive.export name book projection a))
          ≡ ok (outcome exists book)
      found =
          let stored : get name (apply_all calls (Archive.export name book projection a)).exports
              ≡ some (encode book) =
            apply_all-exports name calls (Archive.export name book projection a) spared
            ∙ get-insert name name (encode book) a.exports
            ∙ rw (beq_refl name) refl in
          rw (replay, stored, decode-encode book valid sizes, normal-IsNamed book named) refl
