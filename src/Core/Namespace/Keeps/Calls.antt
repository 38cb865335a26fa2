-- ===== src/Core/Namespace/Keeps/Calls.antt =====
-- `move_dir` and `delete_dir` return on every valid namespace (the loop ends, no `expect` panics) and
-- leave it valid; so do the reservations and the changes of policy.
use mathlib.Core.Bool.{false≢true}
use sim_expr_tree.Prelude.{
  ◌↔◌, suc, Bool, true, false, ◌≡◌, ◌≢◌, refl, sym, ◌∙◌, Option, none, some, Result, ok, err,
  string_eq, pair_eq, arith, length,
}
use sim_expr_tree.Prelude.HashMap.{get, contains_key}
use sim_expr_tree.Core.Id.{DirId}
use sim_expr_tree.Core.Name.{NamespaceName}
use sim_expr_tree.Core.Node.{DirRecord}
use sim_expr_tree.Core.Errors.{NamespaceError, missing_dir_record, dir_move_cycle}
use sim_expr_tree.Core.Namespace.State.{
  Namespace, Slot, WriterLane, Call, after, expect_slot, require_writer, ensure_parent, next_stamp,
}
use sim_expr_tree.Core.Namespace.Move.{
  unless_cycle, parent_of, is_descendant, ensure_new_slot, relocate_dir, relocate_found,
  move_dir_guards, move_dir,
}
use sim_expr_tree.Core.Namespace.Delete.{
  has_children, finish_delete_dir, delete_found, delete_dir_guards, delete_dir,
}
use sim_expr_tree.Core.Namespace.Ancestry.{Above, walk_up-Answers, Depth-lt-length}
use sim_expr_tree.Core.Namespace.Valid.{IsValid, both}
use sim_expr_tree.Core.Namespace.Keeps.Records.{new_slot_of_ok}
use sim_expr_tree.Core.Namespace.Keeps.Trees.{found_of_key}
use sim_expr_tree.Core.Namespace.Keeps.Dirs.{place_dir-IsValid, drop_dir-IsValid}

module _ {P : Type 0} where
  -- The call returns, and what it returns satisfies `Q`.
  abbrev pub Returns :
      {A : Type 0}
      → (Result NamespaceError A × Namespace P → Type 0)
      → Option (Result NamespaceError A × Namespace P)
      → Type 0
  Returns {A} Q y = (x : Result NamespaceError A × Namespace P) × (y ≡ some x) × Q x

  after-Returns :
      {A : Type 0} (Q : Result NamespaceError A × Namespace P → Type 0)
      (r : Result NamespaceError (Unit {0})) (rest : Call P A) (s : Namespace P)
      → ((e : NamespaceError) → Q (err e, s))
      → ((u : Unit {0}) → r ≡ ok u → Returns Q (rest s))
      → Returns Q (after r rest s)
  unfolding after
  after-Returns Q (err e) rest s refused granted = ((err e, s), refl, refused e)
  after-Returns Q (ok u) rest s refused granted = granted u refl

  expect_slot-Returns :
      {A : Type 0} (Q : Result NamespaceError A × Namespace P → Type 0) (p : Option DirId)
      (n : Option NamespaceName) (rest : DirId → NamespaceName → Call P A) (s : Namespace P)
      (σ : Slot)
      → both p n ≡ some σ
      → ((parent : DirId) (name : NamespaceName)
          → p ≡ some parent
          → n ≡ some name
          → Returns Q (rest parent name s))
      → Returns Q (expect_slot p n rest s)
  unfolding expect_slot
  expect_slot-Returns Q none n rest s σ h whole = absurd (ground arith)
  expect_slot-Returns Q (some p) none rest s σ h whole = absurd (ground arith)
  expect_slot-Returns Q (some p) (some n) rest s σ h whole = whole p n refl refl

  unless_cycle-Returns :
      (Q : Result NamespaceError (Unit {0}) × Namespace P → Type 0) (id parent : DirId) (b : Bool)
      (rest : Call P (Unit {0})) (s : Namespace P)
      → Q (err (dir_move_cycle id parent), s)
      → (b ≡ false → Returns Q (rest s))
      → Returns Q (unless_cycle id parent (some b) rest s)
  unfolding unless_cycle
  unless_cycle-Returns Q id parent true rest s cycle free =
      ((err (dir_move_cycle id parent), s), refl, cycle)
  unless_cycle-Returns Q id parent false rest s cycle free = free refl

module _ {P : Type 0} (s : Namespace P) (valid : IsValid s) where
  -- On a valid namespace, for a candidate that is a directory, the walk of `is_descendant` ends, and it
  -- answers `true` exactly if the ancestor is the candidate or lies above it.
  pub is_descendant_answers :
      (candidate ancestor : DirId)
      → contains_key candidate s.dirs ≡ true
      → (b : Bool) × (is_descendant s candidate ancestor ≡ some b)
        × ((b ≡ true) ↔ Above (parent_of s.dirs) ancestor candidate)
  unfolding is_descendant
  is_descendant_answers candidate ancestor there =
      let tree = valid.rooted in
      let (v, found) = found_of_key candidate s.dirs there in
      let (n, deep) = tree.depth candidate v found in
      let below =
        Depth-lt-length s.dirs s.root_dir tree.root_record tree.root_found tree.root_top n candidate
          deep in
      walk_up-Answers s.dirs s.root_dir tree.root_record tree.root_found tree.root_top n
        (suc (length s.dirs)) ancestor candidate deep (omega arith)

  module _ (id parent : DirId) (name : NamespaceName) (other : id ≢ s.root_dir)
      (there : contains_key parent s.dirs ≡ true)
      (apart : ¬ Above (parent_of s.dirs) id parent) where
    relocate_dir-Returns :
        (found : DirRecord P) (old_parent : DirId) (old_name : NamespaceName)
        → get id s.dirs ≡ some found
        → found.parent ≡ some old_parent
        → found.name ≡ some old_name
        → Returns (λ x. IsValid x.1) (relocate_dir id old_parent old_name parent name s)
    unfolding relocate_dir next_stamp
    relocate_dir-Returns found old_parent old_name at is_parent is_name =
        after-Returns (λ x. IsValid x.1) (ensure_new_slot old_parent old_name parent name s) _ s
          (λ _. valid)
          λ u free.
            let placed =
              place_dir-IsValid s valid id found old_parent old_name parent name at is_parent
                is_name other there apart (new_slot_of_ok s old_parent old_name parent name free) in
            rw at (_, refl, placed)

    relocate_found-Returns :
        (o : Option (DirRecord P))
        → get id s.dirs ≡ o
        → Returns (λ x. IsValid x.1) (relocate_found id o parent name s)
    unfolding relocate_found
    relocate_found-Returns none h = ((err (missing_dir_record id), s), refl, valid)
    relocate_found-Returns (some found) h =
        let (σ, at) = valid.rooted.dir_placed id found h other in
        expect_slot-Returns _ found.parent found.name _ s σ at
          (λ p n is_parent is_name. relocate_dir-Returns found p n h is_parent is_name)

  move_dir_granted :
      (lane : WriterLane) (id parent : DirId) {u : Unit}
      → (move_dir_guards lane id parent s).0 ≡ ok u
      → (id ≢ s.root_dir) × (contains_key parent s.dirs ≡ true)
  unfolding move_dir_guards require_writer ensure_parent
  move_dir_granted lane id parent h =
      (λ same. ground (arith, string_eq.beq_iff id s.root_dir), ground arith)

  -- On a valid namespace `move_dir` returns, and leaves the namespace valid.
  pub move_dir-IsValid :
      (lane : WriterLane) (id parent : DirId) (name : NamespaceName)
      → Returns (λ x. IsValid x.1) (move_dir lane id parent name s)
  unfolding move_dir
  move_dir-IsValid lane id parent name =
      after-Returns (λ x. IsValid x.1) (move_dir_guards lane id parent s).0 _ s (λ _. valid)
        λ u granted.
          let (other, there) = move_dir_granted lane id parent granted in
          let (b, walk, answer) = is_descendant_answers parent id there in
          rw walk (
            unless_cycle-Returns (λ x. IsValid x.1) id parent b _ s valid
              λ no_cycle.
                relocate_found-Returns id parent name other there
                  (λ above. false≢true (sym no_cycle ∙ answer.1 above)) (get id s.dirs) refl)

  delete_dir_granted :
      (lane : WriterLane) (id : DirId) {u : Unit}
      → (delete_dir_guards lane id s).0 ≡ ok u
      → (id ≢ s.root_dir) × (has_children id s.children ≡ false)
  unfolding delete_dir_guards require_writer
  delete_dir_granted lane id h =
      (λ same. ground (arith, string_eq.beq_iff id s.root_dir), ground arith)

  delete_found-Returns :
      (id : DirId)
      → id ≢ s.root_dir
      → has_children id s.children ≡ false
      → (o : Option (DirRecord P)) → get id s.dirs ≡ o
      → Returns (λ x. IsValid x.1) (delete_found id o s)
  unfolding delete_found finish_delete_dir next_stamp
  delete_found-Returns id other empty none h = ((err (missing_dir_record id), s), refl, valid)
  delete_found-Returns id other empty (some found) h =
      let (σ, at) = valid.rooted.dir_placed id found h other in
      expect_slot-Returns _ found.parent found.name _ s σ at λ p n is_parent is_name. (
        finish_delete_dir id found p n s,
        refl,
        drop_dir-IsValid s valid id found p n h is_parent is_name other empty,
      )

  -- On a valid namespace `delete_dir` returns, and leaves the namespace valid.
  pub delete_dir-IsValid :
      (lane : WriterLane) (id : DirId) → Returns (λ x. IsValid x.1) (delete_dir lane id s)
  unfolding delete_dir
  delete_dir-IsValid lane id =
      after-Returns (λ x. IsValid x.1) (delete_dir_guards lane id s).0 _ s (λ _. valid)
        λ u granted.
          let (other, empty) = delete_dir_granted lane id granted in
          delete_found-Returns id other empty (get id s.dirs) refl
