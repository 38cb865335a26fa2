-- ===== src/Book/Edit/Valid.antt =====
-- What every book that edits can reach satisfies.
use sim_expr_tree.Prelude.{
  String, Bool, true, false, ◌≡◌, refl, inl, inr, Option, none, some, List, [], ◌∷◌, ◌++◌, arith,
  subst, ◌==◌, string_eq, Bool-cases,
}
use sim_expr_tree.Prelude.HashMap.{get, contains_key}
use sim_expr_tree.Prelude.BTreeMap.{BTreeMap, insert, retain, get-insert, get-retain}
use sim_expr_tree.Prelude.BTreeMap.Order.{Ascending, insert-Ascending, retain-Ascending}
use sim_expr_tree.Book.Model.{Objection, Branch, sort, dedup}
use sim_expr_tree.Book.Model.Sorted.{Ascends, dedup-sort_lem}
use sim_expr_tree.Book.Edit.{ExpeditionBook, new_book, fork, among, chosen_among}
use sim_expr_tree.Book.Edit.Run.{Request, run, run_all}
use sim_expr_tree.Book.Edit.Steps.{
  Step, forked, referenced, objected, chosen, planned, sealed, reopened, retained, written,
  run-Meets,
}

pub record BranchIsValid (key : String) (row : Branch) : Type 0 where
  pub keyed : row.id ≡ key
  -- references ascend strictly: sorted, and none twice
  pub evidence : Ascends row.evidence
  pub objections : Ascending row.objections
  pub objection_keyed : (k : String) (o : Objection) → get k row.objections ≡ some o → o.id ≡ k

abbrev pub ChoiceFound : Option String → BTreeMap Branch → Type 0
ChoiceFound none branches = Unit
ChoiceFound (some id) branches = contains_key id branches ≡ true

pub record IsValid (s : ExpeditionBook) : Type 0 where
  pub ascending : Ascending s.branches
  pub rows : (k : String) (row : Branch) → get k s.branches ≡ some row → BranchIsValid k row
  pub root : contains_key "root" s.branches ≡ true
  pub choice : ChoiceFound s.choice s.branches

ChoiceFound-insert :
    (c : Option String) (k : String) (row : Branch) (m : BTreeMap Branch)
    → ChoiceFound c m
    → ChoiceFound c (insert k row m)
ChoiceFound-insert none k row m h = tt
ChoiceFound-insert (some id) k row m h = ground (arith, get-insert k id row m)

ChoiceFound-retain :
    (c : Option String) (ids : List String) (m : BTreeMap Branch)
    → ChoiceFound c m
    → chosen_among ids c ≡ true
    → ChoiceFound c (retain (among ids) m)
ChoiceFound-retain none ids m h kept = tt
ChoiceFound-retain (some id) ids m h kept = ground (arith, get-retain (among ids) id m)

fork-BranchIsValid :
    (parent id thesis : String) (row : Branch)
    → BranchIsValid parent row
    → BranchIsValid id (fork parent id thesis row)
unfolding fork get
fork-BranchIsValid parent id thesis row old = record {
  keyed = refl;
  evidence = old.evidence;
  objections = tt;
  objection_keyed = λ k o found. ground arith;
}

objection_found :
    (k : String) (p objection : Objection) (m : BTreeMap Objection)
    → (get k m ≡ some p → p.id ≡ k)
    → get k (insert objection.id objection m) ≡ some p
    → p.id ≡ k
objection_found k p objection m old found = elim (Bool-cases (objection.id == k)) [
  | inl same ↦
      let this : objection ≡ p = ground (arith, get-insert objection.id k objection m) in
      let at : objection.id ≡ k = ground (arith, string_eq.beq_iff objection.id k) in
      subst (λ x. x.id ≡ k) this at
  | inr other ↦ old (ground (arith, get-insert objection.id k objection m))
]

module _ (s : ExpeditionBook) (valid : IsValid s) where
  written-IsValid :
      (key : String) (row : Branch) → BranchIsValid key row → IsValid (written s key row)
  written-IsValid key row row_valid = record {
    ascending = insert-Ascending key row s.branches valid.ascending;
    rows = λ k r found. elim (Bool-cases (key == k)) [
      | inl same ↦
          let this : row ≡ r = ground (arith, get-insert key k row s.branches) in
          let at : key ≡ k = ground (arith, string_eq.beq_iff key k) in
          subst (λ x. BranchIsValid k x) this (subst (λ x. BranchIsValid x row) at row_valid)
      | inr other ↦ valid.rows k r (ground (arith, get-insert key k row s.branches))
    ];
    root = ground (arith, valid.root, get-insert key "root" row s.branches);
    choice = ChoiceFound-insert s.choice key row s.branches valid.choice;
  }

  -- a row whose references and objections stay valid
  same_row :
      (key : String) (row : Branch) (play : Option String) (is_sealed : Bool)
      → get key s.branches ≡ some row
      → BranchIsValid key (record row { next_play = play; sealed = is_sealed })
  same_row key row play is_sealed found =
      let old = valid.rows key row found in
      record {
        keyed = old.keyed;
        evidence = old.evidence;
        objections = old.objections;
        objection_keyed = old.objection_keyed;
      }

  Step-IsValid : {request : Request} {t : ExpeditionBook} → Step s t request → IsValid t
  unfolding fork
  Step-IsValid (forked {parent = parent} {id = id} {thesis = thesis} row o free e) =
      let old = valid.rows parent row o.found in
      rw e (
        written-IsValid id (fork parent id thesis row)
          (fork-BranchIsValid parent id thesis row old))
  Step-IsValid (referenced {branch = branch} {refs = refs} row o e) =
      let old = valid.rows branch row o.found in
      rw e (
        written-IsValid branch (record row { evidence = dedup (sort (row.evidence ++ refs)) })
          (record {
            keyed = old.keyed;
            evidence = (dedup-sort_lem (row.evidence ++ refs)).0;
            objections = old.objections;
            objection_keyed = old.objection_keyed;
          }))
  Step-IsValid (objected {branch = branch} {objection = objection} row o free e) =
      let old = valid.rows branch row o.found in
      rw e (
        written-IsValid branch
          (record row { objections = insert objection.id objection row.objections })
          (record {
            keyed = old.keyed;
            evidence = old.evidence;
            objections = insert-Ascending objection.id objection row.objections old.objections;
            objection_keyed = λ k p found.
                objection_found k p objection row.objections (old.objection_keyed k p) found;
          }))
  Step-IsValid (chosen fresh there e) =
      rw e (record {
        ascending = valid.ascending;
        rows = valid.rows;
        root = valid.root;
        choice = there;
      })
  Step-IsValid (planned {branch = branch} {play = play} row o e) = rw e (
      written-IsValid branch (record row { next_play = some play })
        (same_row branch row (some play) row.sealed o.found))
  Step-IsValid (sealed {branch = branch} row o e) = rw e (
      written-IsValid branch (record row { sealed = true })
        (same_row branch row row.next_play true o.found))
  Step-IsValid (reopened {branch = branch} row fresh found e) = rw e (
      written-IsValid branch (record row { sealed = false })
        (same_row branch row row.next_play false found))
  Step-IsValid (retained {ids = ids} fresh root_kept choice_kept e) = rw e (record {
    ascending = retain-Ascending (among ids) s.branches valid.ascending;
    rows = λ k row found. valid.rows k row (ground (arith, get-retain (among ids) k s.branches));
    root = ground (arith, valid.root, get-retain (among ids) "root" s.branches);
    choice = ChoiceFound-retain s.choice ids s.branches valid.choice choice_kept;
  })

  run-IsValid : (request : Request) → IsValid (run request s).1
  run-IsValid request = elim (run-Meets s request) [
    | inl (e, same) ↦ rw same valid
    | inr (t, same, step) ↦ rw same (Step-IsValid step)
  ]

all_well_formed :
    (requests : List Request) (s : ExpeditionBook) → IsValid s → IsValid (run_all requests s)
unfolding run_all
all_well_formed [] s v = v
all_well_formed (request ∷ rest) s v =
    all_well_formed rest (run request s).1 (run-IsValid s v request)

new_book-IsValid : (id thesis : String) → IsValid (new_book id thesis)
unfolding new_book get
new_book-IsValid id thesis = record {
  ascending = (tt, tt);
  rows = λ k row found. ground (arith, string_eq.beq_iff "root" k);
  root = refl;
  choice = tt;
}

-- Every book that any sequence of edits, taken or refused, reaches from a new one is valid: its branches
-- ascend and stand under their identities, each with references that ascend strictly and objections that
-- ascend under theirs, the root is there, and a choice names a branch that is there.
pub run_all-BookIsValid :
    (id thesis : String) (requests : List Request) → IsValid (run_all requests (new_book id thesis))
run_all-BookIsValid id thesis requests =
    all_well_formed requests (new_book id thesis) (new_book-IsValid id thesis)
