-- ===== src/Book/Edit/Conflicts.antt =====
-- Edits that meet one another: callers with an old revision, and branches that are sealed.
use sim_expr_tree.Prelude.{
  ℕ, String, Bool, true, false, not, ◌||◌, ◌≡◌, ◌≢◌, refl, ap, sym, ◌∙◌, inl, inr, some, List, [],
  ◌∷◌, ok, err, arith, next_u64, next_u64_moves, ◌==◌, nat_eq, string_eq, Bool-cases,
}
use sim_expr_tree.Prelude.Exec.{check, ◌>>◌}
use sim_expr_tree.Prelude.HashMap.{get}
use sim_expr_tree.Prelude.BTreeMap.{get-insert, get-retain}
use sim_expr_tree.Book.Model.{Branch}
use sim_expr_tree.Book.Edit
use sim_expr_tree.Book.Edit.{
  ExpeditionBook, EditError, Stop, refused, stale_revision, among, Edit, current, editable,
}
use sim_expr_tree.Book.Edit.Run.{
  Request, branch_from, reference, object_to, choose, set_next_play, seal, reopen_branch,
  retain_branches, expected_of, run, run_all,
}
use sim_expr_tree.Book.Edit.Steps.{
  Step, forked, referenced, objected, chosen, planned, sealed, reopened, retained, written,
  run-Meets,
}

module _ (s : ExpeditionBook) where
  current_stale :
      (n : ℕ) (rest : Edit ℕ)
      → (n == s.revision) ≡ false
      → (check (current n) >> rest) s ≡ (err (refused (stale_revision n s.revision)), s)
  unfolding current
  current_stale n rest old = rw old refl

  editable_stale :
      (n : ℕ) (branch : String) (rest : Edit ℕ)
      → (n == s.revision) ≡ false
      → (editable n branch >> rest) s ≡ (err (refused (stale_revision n s.revision)), s)
  unfolding editable current
  editable_stale n branch rest old = rw old refl

  -- Every request whose caller has seen another revision than the present one is refused as stale, with
  -- both revisions, before anything else is looked at, and the book stays as it was.
  pub run-stale :
      (request : Request)
      → expected_of request ≢ s.revision
      → run request s ≡ (err (refused (stale_revision (expected_of request) s.revision)), s)
  unfolding run expected_of Edit.branch_from Edit.reference Edit.object_to Edit.choose
      Edit.set_next_play Edit.seal Edit.reopen_branch Edit.retain_branches
  run-stale (branch_from n parent id thesis) h = editable_stale n parent _ (ground arith)
  run-stale (reference n branch refs) h = editable_stale n branch _ (ground arith)
  run-stale (object_to n branch objection) h = editable_stale n branch _ (ground arith)
  run-stale (choose n branch) h = current_stale n _ (ground arith)
  run-stale (set_next_play n branch play) h = editable_stale n branch _ (ground arith)
  run-stale (seal n branch) h = editable_stale n branch _ (ground arith)
  run-stale (reopen_branch n branch) h = current_stale n _ (ground arith)
  run-stale (retain_branches n ids) h = current_stale n _ (ground arith)

module _ (s t : ExpeditionBook) where
  -- a step is taken at the present revision, and it advances it
  Step-revision :
      (request : Request)
      → Step s t request
      → (expected_of request ≡ s.revision) × (t.revision ≡ next_u64 s.revision)
  unfolding expected_of
  Step-revision request (forked row o free e) = (o.fresh, ap (λ x. x.revision) e)
  Step-revision request (referenced row o e) = (o.fresh, ap (λ x. x.revision) e)
  Step-revision request (objected row o free e) = (o.fresh, ap (λ x. x.revision) e)
  Step-revision request (chosen fresh there e) = (fresh, ap (λ x. x.revision) e)
  Step-revision request (planned row o e) = (o.fresh, ap (λ x. x.revision) e)
  Step-revision request (sealed row o e) = (o.fresh, ap (λ x. x.revision) e)
  Step-revision request (reopened row fresh found e) = (fresh, ap (λ x. x.revision) e)
  Step-revision request (retained fresh root kept e) = (fresh, ap (λ x. x.revision) e)

  module _ (n : ℕ) (first : Request) (took : run first s ≡ (ok n, t)) where
    taken : Step s t first
    taken = elim (run-Meets s first) [
      | inl (e, same) ↦ ground arith
      | inr (u, same, step) ↦ ground arith
    ]

    -- No update is lost: where one of two edits of callers that have seen the same revision is taken, the
    -- other is refused as stale, and the book keeps what the first has written.
    pub run-conflict :
        (second : Request)
        → expected_of second ≡ expected_of first
        → run second t ≡ (err (refused (stale_revision (expected_of second) t.revision)), t)
    run-conflict second same =
        let (fresh, advanced) = Step-revision first taken in
        run-stale t second (λ h. next_u64_moves s.revision (sym advanced ∙ sym h ∙ same ∙ fresh))

-- the requests that may write or drop a sealed branch: reopening it, and keeping others only
unfoldable pub unlocks : String → Request → Bool
unlocks branch (reopen_branch n other) = other == branch
unlocks branch (retain_branches n ids) = not (among ids branch)
unlocks branch request = false

unfoldable pub unlocks_any : String → List Request → Bool
unlocks_any branch [] = false
unlocks_any branch (request ∷ rest) = unlocks branch request || unlocks_any branch rest

module _ (branch : String) (row : Branch) (shut : row.sealed ≡ true) where
  -- an edit of an open branch leaves a sealed one
  written_other :
      (s : ExpeditionBook) (other : String) (old new : Branch)
      → get branch s.branches ≡ some row
      → get other s.branches ≡ some old
      → old.sealed ≡ false
      → get branch (written s other new).branches ≡ some row
  written_other s other old new held found live = elim (Bool-cases (other == branch)) [
    | inl same ↦ absurd (clash ((string_eq.beq_iff other branch).0 same))
    | inr apart ↦ rw (get-insert other branch new s.branches, apart) held
  ]
    where
      clash : other ≡ branch → ⊥
      clash same = let h : get other s.branches ≡ some row = rw same held in ground arith

  Step-sealed :
      (s t : ExpeditionBook) (request : Request)
      → Step s t request
      → unlocks branch request ≡ false
      → get branch s.branches ≡ some row
      → get branch t.branches ≡ some row
  unfolding unlocks Edit.fork
  Step-sealed s t (branch_from n parent id thesis) (forked old o free e) h held =
      let apart : (id == branch) ≡ false = ground (arith, string_eq.beq_iff id branch) in
      rw (e, get-insert id branch (Edit.fork parent id thesis old) s.branches, apart) held
  Step-sealed s t request (referenced old o e) h held =
      rw e (written_other s _ old _ held o.found o.live)
  Step-sealed s t request (objected old o free e) h held =
      rw e (written_other s _ old _ held o.found o.live)
  Step-sealed s t request (chosen fresh there e) h held = rw e held
  Step-sealed s t request (planned old o e) h held =
      rw e (written_other s _ old _ held o.found o.live)
  Step-sealed s t request (sealed old o e) h held =
      rw e (written_other s _ old _ held o.found o.live)
  Step-sealed s t (reopen_branch n other) (reopened old fresh found e) h held =
      rw e ground (arith, get-insert other branch (record old { sealed = false }) s.branches)
  Step-sealed s t (retain_branches n ids) (retained fresh root kept e) h held =
      rw e ground (arith, get-retain (among ids) branch s.branches)

  run_sealed :
      (s : ExpeditionBook) (request : Request)
      → unlocks branch request ≡ false
      → get branch s.branches ≡ some row
      → get branch (run request s).1.branches ≡ some row
  run_sealed s request h held = elim (run-Meets s request) [
    | inl (e, same) ↦ rw same held
    | inr (t, same, step) ↦ rw same (Step-sealed s t request step h held)
  ]

  -- A sealed branch stays exactly as it is over any sequence of edits, taken or refused, in which no
  -- request reopens it and none retains other branches only.
  pub run_all-sealed :
      (requests : List Request) (s : ExpeditionBook)
      → unlocks_any branch requests ≡ false
      → get branch s.branches ≡ some row
      → get branch (run_all requests s).branches ≡ some row
  unfolding run_all unlocks_any
  run_all-sealed [] s h held = held
  run_all-sealed (request ∷ rest) s h held =
      run_all-sealed rest (run request s).1 (ground arith)
        (run_sealed s request (ground arith) held)
