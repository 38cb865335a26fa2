-- ===== src/Book/Archive.antt =====
-- crates/sim-lib-expedition-book/src/archive.rs: export, projections and replay. Whether a piece of evidence
-- exists is asked of the caller's resolver, a parameter.
pub mod Kept
use mathlib.Core.List.{flatten}
use sim_expr_tree.Prelude.{
  String, Bool, true, false, not, Option, none, some, List, [], ◌∷◌, ◌++◌, map, Result, ok, err,
  is_some, string_eq, if◌then◌else◌,
}
use sim_expr_tree.Prelude.HashMap.{get, remove, contains_key}
use sim_expr_tree.Prelude.BTreeMap.{BTreeMap, insert, values}
use sim_expr_tree.Book.Model.{EvidenceRef, Objection, Branch, sort, dedup}
use sim_expr_tree.Book.Edit.{ExpeditionBook}
use sim_expr_tree.Book.Codec.{encode, decode}
use sim_expr_tree.Book.Codec.Fields.{CodecError}

pub data ArchiveError : Type 0 where
  missing_export : String → ArchiveError
  invalid_export : CodecError → ArchiveError

pub data ReplayOutcome : Type 0 where
  reproduced : ExpeditionBook → ReplayOutcome
  missing_evidence : ExpeditionBook → List EvidenceRef → ReplayOutcome

pub record Archive : Type 0 where
  pub exports : BTreeMap String
  pub projections : BTreeMap String

unfoldable pub export : String → ExpeditionBook → String → Archive → Archive
export name book projection a = record {
  exports = insert name (encode book) a.exports;
  projections = insert name projection a.projections;
}

unfoldable pub delete_projection : String → Archive → Bool × Archive
delete_projection name a =
    (contains_key name a.projections, record a { projections = remove name a.projections })

unfoldable pub has_projection : String → Archive → Bool
has_projection name a = contains_key name a.projections

-- the references of a branch and of its objections
unfoldable pub objection_refs : List Objection → List EvidenceRef
objection_refs [] = []
objection_refs (o ∷ objections) = o.evidence ++ objection_refs objections

unfoldable pub all_refs : List Branch → List EvidenceRef
unfolding objection_refs
all_refs [] = []
all_refs (b ∷ branches) = (b.evidence ++ objection_refs (values b.objections)) ++ all_refs branches

module _ (exists : EvidenceRef → Bool) where
  unfoldable pub push_missing : List EvidenceRef → List EvidenceRef
  push_missing [] = []
  push_missing (r ∷ refs) =
      let more = push_missing refs in if not (exists r) then r ∷ more else more

  unfoldable pub outcome : ExpeditionBook → ReplayOutcome
  unfolding push_missing all_refs
  outcome book = elim (dedup (sort (push_missing (all_refs (values book.branches))))) [
    | [] ↦ reproduced book
    | r ∷ missing ↦ missing_evidence book (r ∷ missing)
  ]

  unfoldable pub replay : String → Archive → Result ArchiveError ReplayOutcome
  unfolding outcome
  replay name a = elim (get name a.exports) [
    | none ↦ err (missing_export name)
    | some bytes ↦ elim (decode bytes) [
      | err e ↦ err (invalid_export e)
      | ok book ↦ ok (outcome book)
    ]
  ]
