-- ===== src/Book/Edit/Taken.antt =====
-- An edit that the contract of a book allows is taken.
use sim_expr_tree.Prelude.{
  ℕ, String, true, ◌≡◌, refl, ◌∙◌, some, ok, arith, ◌==◌, nat_eq, string_eq,
}
use sim_expr_tree.Prelude.Exec.{check, ◌>>=◌, ◌>>◌}
use sim_expr_tree.Prelude.HashMap.{get}
use sim_expr_tree.Book.Model.{Branch}
use sim_expr_tree.Book.Edit
use sim_expr_tree.Book.Edit.{
  ExpeditionBook, EditError, Stop, Edit, refused, editable, current, checked, put, changed, among,
  chosen_among, fork,
}
use sim_expr_tree.Book.Edit.Run.{
  Request, branch_from, reference, object_to, choose, set_next_play, seal, reopen_branch,
  retain_branches, run,
}
use sim_expr_tree.Book.Edit.Steps.{
  IsOpen, Step, forked, referenced, objected, chosen, planned, sealed, reopened, retained, Meets,
  run-Meets,
}

module _ (s : ExpeditionBook) where
  is_current : (n : ℕ) → n ≡ s.revision → (n == s.revision) ≡ true
  is_current n fresh = ground arith

  current-passes : (n : ℕ) (rest : Edit ℕ) → n ≡ s.revision → (check (current n) >> rest) s ≡ rest s
  unfolding current
  current-passes n rest fresh = rw (is_current n fresh) refl

  editable-passes :
      (n : ℕ) (branch : String) (row : Branch) (rest : Edit ℕ)
      → IsOpen s n branch row
      → (editable n branch >> rest) s ≡ rest s
  unfolding editable current
  editable-passes n branch row rest o = rw (is_current n o.fresh, o.found, o.live) refl

  checked-passes :
      (branch : String) (row : Branch) (rest : Branch → Edit ℕ)
      → get branch s.branches ≡ some row
      → (check (checked branch) >>= rest) s ≡ rest row s
  unfolding checked
  checked-passes branch row rest found = rw found refl

  open-passes :
      (n : ℕ) (branch : String) (row : Branch) (rest : Branch → Edit ℕ)
      → IsOpen s n branch row
      → (editable n branch >> (check (checked branch) >>= rest)) s ≡ rest row s
  open-passes n branch row rest o =
      editable-passes n branch row (check (checked branch) >>= rest) o
      ∙ checked-passes branch row rest o.found

  run-takes :
      (request : Request) (t : ExpeditionBook)
      → Step s t request
      → run request s ≡ (ok t.revision, t)
  unfolding run Edit.branch_from Edit.reference Edit.object_to Edit.choose Edit.set_next_play
      Edit.seal Edit.reopen_branch Edit.retain_branches put changed
  run-takes (branch_from n parent id thesis) t (forked row o free e) =
      rw e (editable-passes n parent row _ o ∙ rw free (checked-passes parent row _ o.found))
  run-takes (reference n branch refs) t (referenced row o e) = rw e (open-passes n branch row _ o)
  run-takes (object_to n branch objection) t (objected row o free e) =
      rw e (open-passes n branch row _ o ∙ rw free refl)
  run-takes (choose n branch) t (chosen fresh there e) =
      rw e (current-passes n _ fresh ∙ rw there refl)
  run-takes (set_next_play n branch play) t (planned row o e) = rw e (open-passes n branch row _ o)
  run-takes (seal n branch) t (sealed row o e) = rw e (open-passes n branch row _ o)
  run-takes (reopen_branch n branch) t (reopened row fresh found e) =
      rw e (current-passes n _ fresh ∙ rw found refl)
  run-takes (retain_branches n ids) t (retained fresh root kept e) =
      rw e (current-passes n _ fresh ∙ rw (root, kept) refl)

  -- Every edit implements its step of the contract, in both directions: it is refused with an error
  -- and the book as it was, or it answers the new revision and takes its step; it takes every step that
  -- the contract allows, so it is refused only where the contract allows none. Nothing panics.
  pub run-implements :
      (request : Request)
      → Meets s request (run request s)
        × ((t : ExpeditionBook) → Step s t request → run request s ≡ (ok t.revision, t))
  run-implements request = (run-Meets s request, run-takes request)
