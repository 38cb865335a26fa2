-- ===== src/Book/Edit.antt =====
-- crates/sim-lib-expedition-book/src/edit.rs: optimistic editing of a book.
pub mod Run
pub mod Rules
pub mod Steps
pub mod Valid
pub mod Conflicts
pub mod Taken
use sim_expr_tree.Prelude.{
  ℕ, ◌+◌, String, Bool, true, false, not, ◌||◌, ◌&&◌, Option, none, some, List, [], ◌∷◌, ◌++◌,
  Result, ok, err, ok_or, next_u64, ◌==◌, string_eq, nat_eq, if◌then◌else◌,
}
use sim_expr_tree.Prelude.Exec.{Exec, ◌>>=◌, ◌>>◌, pure, check, modify}
use sim_expr_tree.Prelude.HashMap.{get, contains_key}
use sim_expr_tree.Prelude.BTreeMap.{BTreeMap, insert, retain}
use sim_expr_tree.Book.Model.{EvidenceRef, Objection, Branch, sort, dedup}

pub data EditError : Type 0 where
  stale_revision : ℕ → ℕ → EditError
  missing_branch : String → EditError
  sealed_branch : String → EditError
  duplicate_id : String → EditError
  invalid_choice : String → EditError
  invalid_retention : String → EditError

pub record ExpeditionBook : Type 0 where
  pub id : String
  pub revision : ℕ
  pub branches : BTreeMap Branch
  pub choice : Option String

-- how a call ends early: with an error, or in a panic of an `expect` or of an index
pub data Stop : Type 0 where
  refused : EditError → Stop
  panicked : Stop

-- A method on `&mut self`.
abbrev pub Edit : Type 0 → Type 0
Edit A = Exec ExpeditionBook Stop A

-- `ExpeditionBook::new`
unfoldable pub new_book : String → String → ExpeditionBook
new_book id thesis =
    let root : Branch = record {
      id = "root";
      parent = none;
      thesis = thesis;
      evidence = [];
      objections = [];
      next_play = none;
      sealed = false;
    } in
    record { id = id; revision = 0; branches = (root.id, root) ∷ []; choice = none }

abbrev pub require : Bool → EditError → Result Stop (Unit {0})
require true e = ok tt
require false e = err (refused e)

abbrev pub require_found : Option Branch → EditError → Result Stop Branch
require_found found e = ok_or (refused e) found

-- the test of the caller's revision that each edit starts with
unfoldable pub current : ℕ → ExpeditionBook → Result Stop (Unit {0})
current expected s = require (expected == s.revision) (stale_revision expected s.revision)

-- `editable`
unfoldable pub editable : ℕ → String → Edit (Unit {0})
unfolding current
editable expected branch = do
  check (current expected)
  row ← check (λ s. require_found (get branch s.branches) (missing_branch branch))
  check (λ s. require (not row.sealed) (sealed_branch row.id))

-- `self.branches[branch]` and `get_mut(branch).expect("checked")`
unfoldable pub checked : String → ExpeditionBook → Result Stop Branch
checked branch s = ok_or panicked (get branch s.branches)

-- the row of a branch is written back
unfoldable pub put : String → Branch → Edit (Unit {0})
put branch row = modify (λ s. record s { branches = insert branch row s.branches })

-- `changed`, and the new revision as the answer
unfoldable pub changed : Edit ℕ
changed s = (ok (next_u64 s.revision), record s { revision = next_u64 s.revision })

unfoldable pub fork : String → String → String → Branch → Branch
fork parent id thesis row = record {
  id = id;
  parent = some parent;
  thesis = thesis;
  evidence = row.evidence;
  objections = [];
  next_play = none;
  sealed = false;
}

-- `ExpeditionBook::branch`
unfoldable pub branch_from : ℕ → String → String → String → Edit ℕ
unfolding editable checked put changed fork
branch_from expected parent id thesis = do
  editable expected parent
  check (λ s. require (not (contains_key id s.branches)) (duplicate_id id))
  row ← check (checked parent)
  put id (fork parent id thesis row)
  changed

unfoldable pub compare_branches :
    String → String → ExpeditionBook → Result EditError (Branch × Branch)
compare_branches left right s = elim (get left s.branches) [
  | none ↦ err (missing_branch left)
  | some l ↦ elim (get right s.branches) [ none ↦ err (missing_branch right) | some r ↦ ok (l, r) ]
]

unfoldable pub reference : ℕ → String → List EvidenceRef → Edit ℕ
unfolding editable checked put changed
reference expected branch refs = do
  editable expected branch
  row ← check (checked branch)
  put branch (record row { evidence = dedup (sort (row.evidence ++ refs)) })
  changed

-- `ExpeditionBook::object`
unfoldable pub object_to : ℕ → String → Objection → Edit ℕ
unfolding editable checked put changed
object_to expected branch objection = do
  editable expected branch
  row ← check (checked branch)
  check (λ s. require (not (contains_key objection.id row.objections)) (duplicate_id objection.id))
  put branch (record row { objections = insert objection.id objection row.objections })
  changed

unfoldable pub choose : ℕ → String → Edit ℕ
unfolding current changed
choose expected branch = do
  check (current expected)
  check (λ s. require (contains_key branch s.branches) (invalid_choice branch))
  modify (λ s. record s { choice = some branch })
  changed

unfoldable pub set_next_play : ℕ → String → String → Edit ℕ
unfolding editable checked put changed
set_next_play expected branch play = do
  editable expected branch
  row ← check (checked branch)
  put branch (record row { next_play = some play })
  changed

unfoldable pub seal : ℕ → String → Edit ℕ
unfolding editable checked put changed
seal expected branch = do
  editable expected branch
  row ← check (checked branch)
  put branch (record row { sealed = true })
  changed

-- `ExpeditionBook::reopen`
unfoldable pub reopen_branch : ℕ → String → Edit ℕ
unfolding current put changed
reopen_branch expected branch = do
  check (current expected)
  row ← check (λ s. require_found (get branch s.branches) (missing_branch branch))
  put branch (record row { sealed = false })
  changed

-- membership in the `BTreeSet` of identities
unfoldable pub among : List String → String → Bool
among [] id = false
among (x ∷ ids) id = x == id || among ids id

abbrev pub chosen_among : List String → Option String → Bool
chosen_among ids none = true
chosen_among ids (some id) = among ids id

-- `ExpeditionBook::retain`
unfoldable pub retain_branches : ℕ → List String → Edit ℕ
unfolding current changed
retain_branches expected ids = do
  check (current expected)
  check (λ s.
      require (not (not (among ids "root") || not (chosen_among ids s.choice)))
        (invalid_retention "root and chosen branch must be retained"))
  modify (λ s. record s { branches = retain (among ids) s.branches })
  changed
