-- ===== src/Core/Namespace/Effects/Policies.antt =====
-- The resolved policy of a cell, and the bounds of every policy that a namespace resolves.
use sim_expr_tree.Prelude.{
  ◌≡◌, refl, inl, inr, subst, ◌⊎◌, Option, none, some, List, Result, ok, err, string_eq, arith,
}
use mathlib.Core.List.{reverse}
use sim_expr_tree.Prelude.HashMap.{get}
use sim_expr_tree.Core.Id.{CellId, DirId}
use sim_expr_tree.Core.Node.{node_kind_eq, node_kind_beq_iff, CellRecord, DirRecord}
use sim_expr_tree.Core.Errors.{NamespaceError}
use sim_expr_tree.Core.Policy.{
  Codecs, CodecPolicyPatch, EffectiveCodecPolicy, apply_to, default_policy,
}
use sim_expr_tree.Core.Policy.Bounds.{
  IsBounded, default_policy-IsBounded, foldl-IsBounded, apply_to-IsBounded,
}
use sim_expr_tree.Core.Namespace.State.{Namespace, NamespaceEntry}
use sim_expr_tree.Core.Namespace.Inherit.{
  apply_lineage, resolve, patch_last, effective_dir_policy, effective_cell_policy,
}
use sim_expr_tree.Core.Namespace.Inherit.Lineage.{effective_dir_policy-found}
use sim_expr_tree.Core.Namespace.Valid.{IsValid, locate}

module _ {P E : Type 0} (apply : P → E → E) (empty : E) (s : Namespace P) (valid : IsValid s) where
  located :
      (id : CellId) (r : CellRecord P)
      → get id s.cells ≡ some r
      → locate s.dirs s.cells (NamespaceEntry.cell id r.kind) ≡ some (r.parent, r.name)
  unfolding locate
  located id r found = ground (arith, node_kind_beq_iff r.kind r.kind)

  -- On a valid namespace, the policy of a cell that is there is found: it is the policy of its parent
  -- with the cell's own patch laid over it.
  pub effective_cell_policy-found :
      (id : CellId) (r : CellRecord P)
      → get id s.cells ≡ some r
      → (e : E) × (effective_dir_policy apply empty s r.parent ≡ some (ok e))
        × (effective_cell_policy apply empty s id ≡ some (ok (apply r.policy_patch e)))
  unfolding effective_cell_policy patch_last
  effective_cell_policy-found id r found =
      let entry = NamespaceEntry.cell id r.kind in
      let listed = valid.indexed.listed entry (r.parent, r.name) (located id r found) in
      let (e, at) =
        effective_dir_policy-found apply empty s valid r.parent
          (valid.parent_found (r.parent, r.name) entry listed) in
      (e, at, ground (arith, found, at))

module _ (codecs : Codecs) (s : Namespace (CodecPolicyPatch codecs)) where
  resolve-IsBounded :
      (o : Option (Result NamespaceError (List (DirRecord (CodecPolicyPatch codecs)))))
      (e : EffectiveCodecPolicy codecs)
      → resolve (apply_to codecs) (default_policy codecs) o ≡ some (ok e)
      → IsBounded codecs e
  unfolding resolve apply_lineage
  resolve-IsBounded none e h = ground arith
  resolve-IsBounded (some (err x)) e h = ground arith
  resolve-IsBounded (some (ok lineage)) e h =
      let same : apply_lineage (apply_to codecs) (default_policy codecs) lineage ≡ e =
        ground arith in
      subst (IsBounded codecs) same (
        foldl-IsBounded codecs (λ r. r.policy_patch) (reverse lineage) (default_policy codecs)
          (default_policy-IsBounded codecs))

  dir-IsBounded :
      (id : DirId) (e : EffectiveCodecPolicy codecs)
      → effective_dir_policy (apply_to codecs) (default_policy codecs) s id ≡ some (ok e)
      → IsBounded codecs e
  unfolding effective_dir_policy
  dir-IsBounded id e h = resolve-IsBounded _ e h

  patched-IsBounded :
      (patch : CodecPolicyPatch codecs)
      (o : Option (Result NamespaceError (EffectiveCodecPolicy codecs)))
      (e : EffectiveCodecPolicy codecs)
      → ((x : EffectiveCodecPolicy codecs) → o ≡ some (ok x) → IsBounded codecs x)
      → patch_last (apply_to codecs) (default_policy codecs) patch o ≡ some (ok e)
      → IsBounded codecs e
  unfolding patch_last
  patched-IsBounded patch none e before h = ground arith
  patched-IsBounded patch (some (err x)) e before h = ground arith
  patched-IsBounded patch (some (ok x)) e before h =
      let same : apply_to codecs patch x ≡ e = ground arith in
      subst (IsBounded codecs) same (apply_to-IsBounded codecs patch x (before x refl))

  found-IsBounded :
      (id : CellId) (o : Option (CellRecord (CodecPolicyPatch codecs)))
      (e : EffectiveCodecPolicy codecs)
      → get id s.cells ≡ o
      → effective_cell_policy (apply_to codecs) (default_policy codecs) s id ≡ some (ok e)
      → IsBounded codecs e
  unfolding effective_cell_policy
  found-IsBounded id none e at h = ground arith
  found-IsBounded id (some r) e at h =
      patched-IsBounded r.policy_patch _ e (dir-IsBounded r.parent) (ground arith)

  -- Whatever patches the records carry, every policy that the namespace resolves for a cell or a
  -- directory is within the hard ceilings and the default decode limits.
  pub effective_policy-IsBounded :
      (e : EffectiveCodecPolicy codecs)
      → ((d : DirId) × (effective_dir_policy (apply_to codecs) (default_policy codecs) s d
            ≡ some (ok e)))
        ⊎ ((c : CellId) × (effective_cell_policy (apply_to codecs) (default_policy codecs) s c
              ≡ some (ok e)))
      → IsBounded codecs e
  effective_policy-IsBounded e (inl (d, h)) = dir-IsBounded d e h
  effective_policy-IsBounded e (inr (c, h)) = found-IsBounded c (get c s.cells) e refl h
