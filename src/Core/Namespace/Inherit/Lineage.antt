-- ===== src/Core/Namespace/Inherit/Lineage.antt =====
-- The inherited policy of a directory: the walk to the root ends, and each directory lays its patch over
-- what its parent has.
use mathlib.Core.List.{foldl-append, reverse-cons}
use sim_expr_tree.Prelude.{
  ℕ, zero, suc, true, ◌<◌, ◌≡◌, refl, sym, ◌∙◌, ap, subst, Option, none, some, List, [], ◌∷◌,
  Result, ok, err, string_eq, length, arith,
}
use sim_expr_tree.Prelude.HashMap.{get, contains_key}
use sim_expr_tree.Core.Id.{DirId}
use sim_expr_tree.Core.Node.{DirRecord}
use sim_expr_tree.Core.Errors.{NamespaceError}
use sim_expr_tree.Core.Namespace.State.{Namespace}
use sim_expr_tree.Core.Namespace.Move.{parent_of}
use sim_expr_tree.Core.Namespace.Inherit.{
  push_front, collect_lineage, apply_lineage, resolve, patch_last, effective_dir_policy,
}
use sim_expr_tree.Core.Namespace.Ancestry.{Depth, Depth-lt-length, found_of_parent, root-top}
use sim_expr_tree.Core.Namespace.Valid.{IsValid}
use sim_expr_tree.Core.Namespace.Keeps.Trees.{found_of_key, parent_of_found}

module _ {P : Type 0} (s : Namespace P) (valid : IsValid s) where
  open valid use {rooted}

  collect_root :
      (fuel : ℕ) → collect_lineage s (suc fuel) s.root_dir ≡ some (ok (rooted.root_record ∷ []))
  unfolding collect_lineage
  collect_root fuel = ground (arith, rooted.root_found, rooted.root_top)

  collect_child :
      (fuel : ℕ) (id p : DirId) (r : DirRecord P)
      → get id s.dirs ≡ some r
      → r.parent ≡ some p
      → collect_lineage s (suc fuel) id ≡ push_front r (collect_lineage s fuel p)
  unfolding collect_lineage
  collect_child fuel id p r found up = ground arith

  -- enough fuel gives one answer
  collect_stable :
      (n f g : ℕ) (id : DirId)
      → Depth (parent_of s.dirs) s.root_dir n id
      → n < f
      → n < g
      → collect_lineage s f id ≡ collect_lineage s g id
  collect_stable n zero g id h a b = absurd (omega arith)
  collect_stable n (suc f) zero id h a b = absurd (omega arith)
  collect_stable zero (suc f) (suc g) id h a b = rw h (collect_root f ∙ sym (collect_root g))
  collect_stable (suc n) (suc f) (suc g) id (p, e, h) a b =
      let (r, found, up) = found_of_parent s.dirs id p e in
      collect_child f id p r found up
      ∙ ap (push_front r) (collect_stable n f g p h (omega arith) (omega arith))
      ∙ sym (collect_child g id p r found up)

  -- and it is an answer
  collect_total :
      (n f : ℕ) (id : DirId)
      → Depth (parent_of s.dirs) s.root_dir n id
      → n < f
      → (l : List (DirRecord P)) × (collect_lineage s f id ≡ some (ok l))
  unfolding push_front
  collect_total n zero id h a = absurd (omega arith)
  collect_total zero (suc f) id h a = (rooted.root_record ∷ [], rw h (collect_root f))
  collect_total (suc n) (suc f) id (p, e, h) a =
      let (r, found, up) = found_of_parent s.dirs id p e in
      let (l, rest) = collect_total n f p h (omega arith) in
      (r ∷ l, collect_child f id p r found up ∙ ap (push_front r) rest)

  -- a directory with a parent lies one below it
  parent-Depth :
      (n : ℕ) (id p : DirId)
      → parent_of s.dirs id ≡ some p
      → Depth (parent_of s.dirs) s.root_dir n id
      → (m : ℕ) × Depth (parent_of s.dirs) s.root_dir m p × (n ≡ suc m)
  parent-Depth zero id p up h =
      let top = root-top s.dirs s.root_dir rooted.root_record rooted.root_found rooted.root_top in
      absurd (ground arith)
  parent-Depth (suc m) id p up (q, e, h) =
      let same : q ≡ p = ground arith in
      (m, subst (Depth (parent_of s.dirs) s.root_dir m) same h, refl)

module _ {P E : Type 0} (apply_to : P → E → E) (empty : E) where
  resolve-push_front :
      (r : DirRecord P) (o : Option (Result NamespaceError (List (DirRecord P))))
      → resolve apply_to empty (push_front r o)
        ≡ patch_last apply_to empty r.policy_patch (resolve apply_to empty o)
  unfolding resolve push_front patch_last
  resolve-push_front r none = refl
  resolve-push_front r (some (err e)) = refl
  resolve-push_front r (some (ok l)) = rw (reverse-cons, foldl-append)

  module _ (s : Namespace P) (valid : IsValid s) where
    -- On a valid namespace, the policy of a directory that is there is found.
    pub effective_dir_policy-found :
        (id : DirId)
        → contains_key id s.dirs ≡ true
        → (e : E) × (effective_dir_policy apply_to empty s id ≡ some (ok e))
    unfolding effective_dir_policy
    effective_dir_policy-found id there =
        let (v, found) = found_of_key id s.dirs there in
        let tree = valid.rooted in
        let (n, deep) = tree.depth id v found in
        let below =
          Depth-lt-length s.dirs s.root_dir tree.root_record tree.root_found tree.root_top n id
            deep in
        let (l, e) = collect_total s valid n (suc (length s.dirs)) id deep (omega arith) in
        (apply_lineage apply_to empty l, ap (resolve apply_to empty) e)

    -- The root lays its patch over the default.
    pub effective_dir_policy-root :
        effective_dir_policy apply_to empty s s.root_dir
        ≡ some (ok (apply_to valid.rooted.root_record.policy_patch empty))
    unfolding effective_dir_policy
    effective_dir_policy-root = ap (resolve apply_to empty) (collect_root s valid (length s.dirs))

    -- On a valid namespace, the resolved policy of a directory that has a parent is the parent's with the
    -- directory's own patch laid over it.
    pub effective_dir_policy-child :
        (id p : DirId) (r : DirRecord P)
        → get id s.dirs ≡ some r
        → r.parent ≡ some p
        → effective_dir_policy apply_to empty s id
          ≡ patch_last apply_to empty r.policy_patch (effective_dir_policy apply_to empty s p)
    unfolding effective_dir_policy
    effective_dir_policy-child id p r found up =
        let tree = valid.rooted in
        let L = length s.dirs in
        let (n, deep) = tree.depth id r found in
        let below =
          Depth-lt-length s.dirs s.root_dir tree.root_record tree.root_found tree.root_top n id
            deep in
        let (m, deep', one_more) =
          parent-Depth s valid n id p (parent_of_found s.dirs id r found ∙ up) deep in
        ap (resolve apply_to empty) (
          collect_child s valid L id p r found up
          ∙ ap (push_front r)
              (collect_stable s valid m L (suc L) p deep' (omega arith) (omega arith)))
        ∙ resolve-push_front r (collect_lineage s (suc L) p)
