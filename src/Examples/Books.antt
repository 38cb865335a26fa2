-- ===== src/Examples/Books.antt =====
-- The theorems on the expedition book: a book with one branch, and edits of it.
use sim_expr_tree.Prelude.{
  String, Bool, true, false, not, ◌≡◌, ◌≢◌, ◌↔◌, ◌≤◌, ◌<◌, refl, none, some, List, [], ◌∷◌, ok, err,
  arith, string_eq, nat_eq, next_u64, length, ◌==◌,
}
use sim_expr_tree.Prelude.HashMap.{get}
use sim_expr_tree.Book.Model.{EvidenceRef, Branch}
use sim_expr_tree.Book.Edit
use sim_expr_tree.Book.Edit.{ExpeditionBook, new_book, refused, stale_revision}
use sim_expr_tree.Book.Edit.Run.{
  Request, branch_from, choose, seal, set_next_play, reopen_branch, expected_of, run, run_all,
}
use sim_expr_tree.Book.Edit.Steps.{Step, Meets}
use sim_expr_tree.Book.Edit.Taken.{run-implements}
use sim_expr_tree.Book.Edit.Valid.{IsValid, BranchIsValid, run_all-BookIsValid}
use sim_expr_tree.Book.Edit.Conflicts.{
  run-stale, run-conflict, unlocks, unlocks_any, run_all-sealed,
}
use sim_expr_tree.Book.Codec.{encode, decode}
use sim_expr_tree.Book.Codec.Fields.{malformed, push_str}
use sim_expr_tree.Book.Codec.Round.{
  BranchSizes, Sizes, normal, decode-encode, decode-encode_trailing,
}
use sim_expr_tree.Book.Archive
use sim_expr_tree.Book.Archive.{Archive, ReplayOutcome, replay}
use sim_expr_tree.Book.Archive.Kept.{
  ArchiveCall, delete_projection, apply_all, spares, Reports, IsNamed, replay-export,
}
use sim_expr_tree.Book.Projection.{project, project-bounded}

abbrev root_row : Branch
root_row = record {
  id = "root";
  parent = none;
  thesis = "Tides: why?";
  evidence = record { kind = "run"; content_key = "r1" } ∷ [];
  objections = [];
  next_play = some "";
  sealed = true;
}

abbrev sample : ExpeditionBook
sample = record {
  id = "tides";
  revision = 4;
  branches = ("root", root_row) ∷ [];
  choice = some "root";
}

only_row :
    (k : String) (b : Branch) → get k sample.branches ≡ some b → (k ≡ "root") × (b ≡ root_row)
unfolding get
only_row k b found = ground (arith, string_eq.beq_iff "root" k)

root_row-IsValid : BranchIsValid "root" root_row
unfolding get
root_row-IsValid = record {
  keyed = refl;
  evidence = tt;
  objections = tt;
  objection_keyed = λ k o found. ground arith;
}

sample-IsValid : IsValid sample
unfolding get
sample-IsValid = record {
  ascending = (tt, tt);
  rows = λ k b found. let (e, f) = only_row k b found in rw (e, f) root_row-IsValid;
  root = refl;
  choice = refl;
}

root_row-Sizes : BranchSizes root_row
unfolding get
root_row-Sizes = record {
  id = omega arith;
  parent = omega arith;
  thesis = omega arith;
  next_play = omega arith;
  references = omega arith;
  evidence = (omega arith, omega arith, tt);
  count = omega arith;
  objections = λ k o found. absurd (ground arith);
}

sample-Sizes : Sizes sample
sample-Sizes = record {
  id = omega arith;
  revision = omega arith;
  choice = omega arith;
  count = omega arith;
  branches = λ k b found. let (e, f) = only_row k b found in rw f root_row-Sizes;
}

decode-encode_example : decode (encode sample) ≡ ok (normal sample)
decode-encode_example = decode-encode sample sample-IsValid sample-Sizes

decode-encode_trailing_example :
    decode (push_str (encode sample) "0:") ≡ err (malformed "trailing bytes")
decode-encode_trailing_example = decode-encode_trailing sample sample-IsValid sample-Sizes "0:" refl

-- the resolver that knows claims only
abbrev claims_only : EvidenceRef → Bool
claims_only r = not (r.kind == "run")

abbrev drops : List ArchiveCall
drops = delete_projection "tides" ∷ []

drops-spares : spares "tides" drops ≡ true
unfolding spares
drops-spares = refl

-- the same book with a play that is named
abbrev named_row : Branch
named_row = record root_row { next_play = some "tides" }

abbrev named : ExpeditionBook
named = record sample { branches = ("root", named_row) ∷ [] }

only_named :
    (k : String) (b : Branch) → get k named.branches ≡ some b → (k ≡ "root") × (b ≡ named_row)
unfolding get
only_named k b found = ground (arith, string_eq.beq_iff "root" k)

named_row-IsValid : BranchIsValid "root" named_row
unfolding get
named_row-IsValid = record {
  keyed = refl;
  evidence = tt;
  objections = tt;
  objection_keyed = λ k o found. ground arith;
}

named-IsValid : IsValid named
unfolding get
named-IsValid = record {
  ascending = (tt, tt);
  rows = λ k b found. let (e, f) = only_named k b found in rw (e, f) named_row-IsValid;
  root = refl;
  choice = refl;
}

named_row-Sizes : BranchSizes named_row
unfolding get
named_row-Sizes = record {
  id = omega arith;
  parent = omega arith;
  thesis = omega arith;
  next_play = omega arith;
  references = omega arith;
  evidence = (omega arith, omega arith, tt);
  count = omega arith;
  objections = λ k o found. absurd (ground arith);
}

named-Sizes : Sizes named
named-Sizes = record {
  id = omega arith;
  revision = omega arith;
  choice = omega arith;
  count = omega arith;
  branches = λ k b found. let (e, f) = only_named k b found in rw f named_row-Sizes;
}

apart : (s t : String) → (s == t) ≡ false → some s ≢ some t
apart s t no_ h = ground (arith, string_eq.beq_iff s t)

named-IsNamed : IsNamed named
named-IsNamed = (apart "root" "" refl, ((λ h. ground arith, apart "tides" "" refl), tt))

replay-export_example :
    (o : ReplayOutcome) × (replay claims_only "tides" (
        apply_all drops
          (Archive.export "tides" named "face" (record { exports = []; projections = [] })))
      ≡ ok o)
    × Reports claims_only named o
replay-export_example =
    replay-export claims_only "tides" named "face" drops (record { exports = []; projections = [] })
      named-IsValid named-Sizes named-IsNamed drops-spares

project-bounded_example :
    ((project sample 0).revision ≡ 4)
    × (length (project sample 0).rows ≤ 0)
    × (length (project sample 0).rows ≤ 1)
    × (((project sample 0).truncated ≡ true) ↔ (0 < 1))
project-bounded_example = project-bounded sample 0

run-implements_example :
    Meets sample (choose 4 "root") (run (choose 4 "root") sample)
    × ((t : ExpeditionBook)
        → Step sample t (choose 4 "root")
        → run (choose 4 "root") sample ≡ (ok t.revision, t))
run-implements_example = run-implements sample (choose 4 "root")

abbrev session : List Request
session =
    branch_from 0 "root" "alt" "Moon"
    ∷ seal 1 "alt"
    ∷ set_next_play 2 "alt" "p"
    ∷ choose 2 "alt"
    ∷ []

run_all-BookIsValid_example : IsValid (run_all session (new_book "b" "Why?"))
run_all-BookIsValid_example = run_all-BookIsValid "b" "Why?" session

run-stale_example : run (choose 3 "root") sample ≡ (err (refused (stale_revision 3 4)), sample)
unfolding expected_of
run-stale_example = run-stale sample (choose 3 "root") (λ h. omega arith)

abbrev rechosen : ExpeditionBook
rechosen = record sample { revision = 5 }

first_choice : run (choose 4 "root") sample ≡ (ok 5, rechosen)
unfolding run Edit.choose Edit.current Edit.changed next_u64 get
first_choice = refl

run-conflict_example :
    run (reopen_branch 4 "root") rechosen ≡ (err (refused (stale_revision 4 5)), rechosen)
unfolding expected_of
run-conflict_example =
    run-conflict sample rechosen 5 (choose 4 "root") first_choice (reopen_branch 4 "root") refl

abbrev attempts : List Request
attempts = set_next_play 4 "root" "p" ∷ branch_from 4 "root" "alt" "Moon" ∷ choose 4 "root" ∷ []

attempts_unlock_nothing : unlocks_any "root" attempts ≡ false
unfolding unlocks_any unlocks
attempts_unlock_nothing = refl

sample_root : get "root" sample.branches ≡ some root_row
unfolding get
sample_root = refl

run_all-sealed_example : get "root" (run_all attempts sample).branches ≡ some root_row
run_all-sealed_example =
    run_all-sealed "root" root_row refl attempts sample attempts_unlock_nothing sample_root
