-- ===== src/Book/Edit/Run.antt =====
-- The edits of a book as requests, each with the revision that its caller has seen.
use sim_expr_tree.Prelude.{ℕ, String, List, [], ◌∷◌, Result}
use sim_expr_tree.Book.Model.{EvidenceRef, Objection}
use sim_expr_tree.Book.Edit
use sim_expr_tree.Book.Edit.{ExpeditionBook, Stop}

pub data Request : Type 0 where
  branch_from : ℕ → String → String → String → Request
  reference : ℕ → String → List EvidenceRef → Request
  object_to : ℕ → String → Objection → Request
  choose : ℕ → String → Request
  set_next_play : ℕ → String → String → Request
  seal : ℕ → String → Request
  reopen_branch : ℕ → String → Request
  retain_branches : ℕ → List String → Request

-- the revision that the caller expects
unfoldable pub expected_of : Request → ℕ
expected_of (branch_from n parent id thesis) = n
expected_of (reference n branch refs) = n
expected_of (object_to n branch objection) = n
expected_of (choose n branch) = n
expected_of (set_next_play n branch play) = n
expected_of (seal n branch) = n
expected_of (reopen_branch n branch) = n
expected_of (retain_branches n ids) = n

unfoldable pub run : Request → ExpeditionBook → Result Stop ℕ × ExpeditionBook
run (branch_from n parent id thesis) = Edit.branch_from n parent id thesis
run (reference n branch refs) = Edit.reference n branch refs
run (object_to n branch objection) = Edit.object_to n branch objection
run (choose n branch) = Edit.choose n branch
run (set_next_play n branch play) = Edit.set_next_play n branch play
run (seal n branch) = Edit.seal n branch
run (reopen_branch n branch) = Edit.reopen_branch n branch
run (retain_branches n ids) = Edit.retain_branches n ids

-- the book after a sequence of requests, answered or refused
unfoldable pub run_all : List Request → ExpeditionBook → ExpeditionBook
run_all [] s = s
run_all (request ∷ rest) s = run_all rest (run request s).1
