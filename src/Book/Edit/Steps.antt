-- ===== src/Book/Edit/Steps.antt =====
-- The contract of a book: a step for each kind of request, and that every request is refused with the
-- book as it was or takes its step.
use sim_expr_tree.Prelude.{
  ℕ, String, Bool, true, false, not, ◌||◌, ◌≡◌, ◌⊎◌, refl, inl, inr, none, some, List, [], ◌++◌, ok,
  err, arith, next_u64, string_eq, nat_eq,
}
use sim_expr_tree.Prelude.Exec.{check, ◌>>=◌, ◌>>◌}
use sim_expr_tree.Prelude.HashMap.{get, contains_key}
use sim_expr_tree.Prelude.BTreeMap.{insert, retain}
use sim_expr_tree.Book.Model.{EvidenceRef, Objection, Branch, sort, dedup}
use sim_expr_tree.Book.Edit
use sim_expr_tree.Book.Edit.{
  ExpeditionBook, EditError, Stop, refused, fork, among, chosen_among, put, changed,
}
use sim_expr_tree.Book.Edit.Rules.{
  Outcome, require_rule, row_rule, current_rule, editable_rule, checked_rule,
}
use sim_expr_tree.Book.Edit.Run.{
  Request, branch_from, reference, object_to, choose, set_next_play, seal, reopen_branch,
  retain_branches, run,
}

-- one branch written, and the next revision
abbrev pub written : ExpeditionBook → String → Branch → ExpeditionBook
written s branch row = record s {
  branches = insert branch row s.branches;
  revision = next_u64 s.revision;
}

-- the caller has seen the present revision, and the branch is there and not sealed
pub record IsOpen (s : ExpeditionBook) (expected : ℕ) (branch : String) (row : Branch)
    : Type 0 where
  pub fresh : expected ≡ s.revision
  pub found : get branch s.branches ≡ some row
  pub live : row.sealed ≡ false

-- What a request that is taken does to a book.
pub data Step (s t : ExpeditionBook) : Request → Type 0 where
  forked :
      {n : ℕ} {parent id thesis : String} (row : Branch)
      → IsOpen s n parent row
      → get id s.branches ≡ none
      → t
        ≡ written s id (record {
          id = id;
          parent = some parent;
          thesis = thesis;
          evidence = row.evidence;
          objections = [];
          next_play = none;
          sealed = false;
        })
      → Step s t (branch_from n parent id thesis)
  referenced :
      {n : ℕ} {branch : String} {refs : List EvidenceRef} (row : Branch)
      → IsOpen s n branch row
      → t ≡ written s branch (record row { evidence = dedup (sort (row.evidence ++ refs)) })
      → Step s t (reference n branch refs)
  objected :
      {n : ℕ} {branch : String} {objection : Objection} (row : Branch)
      → IsOpen s n branch row
      → get objection.id row.objections ≡ none
      → t
        ≡ written s branch
            (record row { objections = insert objection.id objection row.objections })
      → Step s t (object_to n branch objection)
  chosen :
      {n : ℕ} {branch : String}
      → n ≡ s.revision
      → contains_key branch s.branches ≡ true
      → t ≡ record s { choice = some branch; revision = next_u64 s.revision }
      → Step s t (choose n branch)
  planned :
      {n : ℕ} {branch play : String} (row : Branch)
      → IsOpen s n branch row
      → t ≡ written s branch (record row { next_play = some play })
      → Step s t (set_next_play n branch play)
  sealed :
      {n : ℕ} {branch : String} (row : Branch)
      → IsOpen s n branch row
      → t ≡ written s branch (record row { sealed = true })
      → Step s t (seal n branch)
  reopened :
      {n : ℕ} {branch : String} (row : Branch)
      → n ≡ s.revision
      → get branch s.branches ≡ some row
      → t ≡ written s branch (record row { sealed = false })
      → Step s t (reopen_branch n branch)
  retained :
      {n : ℕ} {ids : List String}
      → n ≡ s.revision
      → among ids "root" ≡ true
      → chosen_among ids s.choice ≡ true
      → t ≡ record s { branches = retain (among ids) s.branches; revision = next_u64 s.revision }
      → Step s t (retain_branches n ids)

-- the outcome of a request: refused with nothing changed, or its step with the new revision as the answer
abbrev pub Meets : ExpeditionBook → Request → Outcome → Type 0
Meets s request x =
    ((e : EditError) × (x ≡ (err (refused e), s)))
    ⊎ ((t : ExpeditionBook) × (x ≡ (ok t.revision, t)) × Step s t request)

module _ (s : ExpeditionBook) where
  none_of_free : (id : String) → not (contains_key id s.branches) ≡ true → get id s.branches ≡ none
  none_of_free id h = ground arith

  module _ (request : Request) where
    stays : (e : EditError) → Meets s request (err (refused e), s)
    stays e = inl (e, refl)

    -- the edits of one open branch
    open_branch-Meets :
        (n : ℕ) (branch : String) (rest : Branch → Edit.Edit ℕ)
        → ((row : Branch) → IsOpen s n branch row → Meets s request (rest row s))
        → Meets s request ((Edit.editable n branch >> (check (Edit.checked branch) >>= rest)) s)
    open_branch-Meets n branch rest passed =
        editable_rule s (Meets s request) stays n branch _ λ row fresh found live.
          checked_rule s (Meets s request) stays branch rest row found
            (passed row (record { fresh = fresh; found = found; live = live }))

    require-Meets :
        (test : ExpeditionBook → Bool) (e : ExpeditionBook → EditError) (rest : Edit.Edit ℕ)
        → (test s ≡ true → Meets s request (rest s))
        → Meets s request ((check (λ t. Edit.require (test t) (e t)) >> rest) s)
    require-Meets = require_rule s (Meets s request) stays

    current-Meets :
        (n : ℕ) (rest : Edit.Edit ℕ)
        → (n ≡ s.revision → Meets s request (rest s))
        → Meets s request ((check (Edit.current n) >> rest) s)
    current-Meets = current_rule s (Meets s request) stays

  -- Every request is refused with an error and the book as it was, or answers the new
  -- revision and takes its step of the contract. Nothing panics.
  pub run-Meets : (request : Request) → Meets s request (run request s)
  unfolding run Edit.branch_from Edit.reference Edit.object_to Edit.choose Edit.set_next_play
      Edit.seal Edit.reopen_branch Edit.retain_branches put changed
  run-Meets (branch_from n parent id thesis) =
      let r = branch_from n parent id thesis in
      editable_rule s (Meets s r) (stays r) n parent _ λ row fresh found live.
        require-Meets r (λ t. not (contains_key id t.branches)) (λ _. EditError.duplicate_id id) _
          λ free. checked_rule s (Meets s r) (stays r) parent _ row found (
            inr (
              _,
              refl,
              forked row (record { fresh = fresh; found = found; live = live })
                  (none_of_free id free) refl,
            ))
  run-Meets (reference n branch refs) =
      open_branch-Meets (reference n branch refs) n branch _
        λ row o. inr (_, refl, referenced row o refl)
  run-Meets (object_to n branch objection) =
      let r = object_to n branch objection in
      open_branch-Meets r n branch _ λ row o.
        require-Meets r (λ _. not (contains_key objection.id row.objections))
          (λ _. EditError.duplicate_id objection.id) _
          λ free. inr (_, refl, objected row o (ground arith) refl)
  run-Meets (choose n branch) =
      let r = choose n branch in
      current-Meets r n _ λ fresh.
        require-Meets r (λ t. contains_key branch t.branches) (λ _. EditError.invalid_choice branch)
          _ λ there. inr (_, refl, chosen fresh there refl)
  run-Meets (set_next_play n branch play) =
      open_branch-Meets (set_next_play n branch play) n branch _
        λ row o. inr (_, refl, planned row o refl)
  run-Meets (seal n branch) =
      open_branch-Meets (seal n branch) n branch _ λ row o. inr (_, refl, sealed row o refl)
  run-Meets (reopen_branch n branch) =
      let r = reopen_branch n branch in
      current-Meets r n _ λ fresh.
        row_rule s (Meets s r) (stays r) branch (EditError.missing_branch branch) _
          λ row found. inr (_, refl, reopened row fresh found refl)
  run-Meets (retain_branches n ids) =
      let r = retain_branches n ids in
      current-Meets r n _ λ fresh.
        require-Meets r (λ t. not (not (among ids "root") || not (chosen_among ids t.choice)))
          (λ _. EditError.invalid_retention "root and chosen branch must be retained") _
          λ kept. inr (_, refl, retained fresh (ground arith) (ground arith) refl)
