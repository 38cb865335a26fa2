-- ===== src/Book/Edit/Rules.antt =====
-- To show something of the outcome of an edit: at each refusal, where the book is as it was, and behind
-- all the checks, with what they found.
use sim_expr_tree.Prelude.{
  ℕ, String, Bool, true, false, ◌≡◌, inl, inr, some, Result, err, arith, ◌==◌, nat_eq, string_eq,
  Bool-cases, Option-cases,
}
use sim_expr_tree.Prelude.Exec.{check, ◌>>=◌, ◌>>◌}
use sim_expr_tree.Prelude.HashMap.{get}
use sim_expr_tree.Book.Model.{Branch}
use sim_expr_tree.Book.Edit.{
  ExpeditionBook, EditError, Stop, refused, Edit, require, require_found, current, editable,
  checked,
}

abbrev pub Outcome : Type 0
Outcome = Result Stop ℕ × ExpeditionBook

module _ (s : ExpeditionBook) (Q : Outcome → Type 0)
    (stopped : (e : EditError) → Q (err (refused e), s)) where
  pub require_rule :
      (test : ExpeditionBook → Bool) (e : ExpeditionBook → EditError) (rest : Edit ℕ)
      → (test s ≡ true → Q (rest s))
      → Q ((check (λ t. require (test t) (e t)) >> rest) s)
  require_rule test e rest passed = elim (Bool-cases (test s)) [
    | inl yes_ ↦ rw yes_ (passed yes_)
    | inr no_ ↦ rw no_ (stopped (e s))
  ]

  pub row_rule :
      (branch : String) (e : EditError) (rest : Branch → Edit ℕ)
      → ((row : Branch) → get branch s.branches ≡ some row → Q (rest row s))
      → Q ((check (λ t. require_found (get branch t.branches) e) >>= rest) s)
  row_rule branch e rest passed = elim (Option-cases (get branch s.branches)) [
    | inl missing ↦ rw missing (stopped e)
    | inr (row, found) ↦ rw found (passed row found)
  ]

  pub current_rule :
      (expected : ℕ) (rest : Edit ℕ)
      → (expected ≡ s.revision → Q (rest s))
      → Q ((check (current expected) >> rest) s)
  unfolding current
  current_rule expected rest passed =
      require_rule (λ t. expected == t.revision) (λ t. EditError.stale_revision expected t.revision)
        rest (λ h. passed (ground arith))

  pub editable_rule :
      (expected : ℕ) (branch : String) (rest : Edit ℕ)
      → ((row : Branch)
          → expected ≡ s.revision
          → get branch s.branches ≡ some row
          → row.sealed ≡ false
          → Q (rest s))
      → Q ((editable expected branch >> rest) s)
  unfolding editable current
  editable_rule expected branch rest passed = elim (Bool-cases (expected == s.revision)) [
    | inr stale ↦ rw stale (stopped (EditError.stale_revision expected s.revision))
    | inl same ↦ elim (Option-cases (get branch s.branches)) [
      | inl missing ↦ rw (same, missing) (stopped (EditError.missing_branch branch))
      | inr (row, found) ↦ elim (Bool-cases row.sealed) [
        | inl sealed ↦ rw (same, found, sealed) (stopped (EditError.sealed_branch row.id))
        | inr live ↦ rw (same, found, live) (passed row (ground arith) found live)
      ]
    ]
  ]

  -- behind the checks the row is found again, so nothing panics
  pub checked_rule :
      (branch : String) (rest : Branch → Edit ℕ) (row : Branch)
      → get branch s.branches ≡ some row
      → Q (rest row s)
      → Q ((check (checked branch) >>= rest) s)
  unfolding checked
  checked_rule branch rest row found passed = rw found passed
