-- ===== src/Core/Policy/Bounds.antt =====
-- No patch, and no policy resolved from patches, exceeds the hard ceilings.
use mathlib.Core.List.{foldl}
use sim_expr_tree.Prelude.{◌≤◌, Option, none, some, List, [], ◌∷◌, arith}
use sim_expr_tree.Core.Policy.{
  FaceBudget, DecodeLimits, Codecs, CodecPolicyPatch, EffectiveCodecPolicy, clamp_budget,
  default_budget, bound_decode_limits, default_policy, apply_to, derive, replace,
  hard_max_face_bytes, hard_max_face_depth, hard_max_face_items,
}

pub record IsClamped (b : FaceBudget) : Type 0 where
  pub bytes : b.max_bytes ≤ hard_max_face_bytes
  pub depth : b.max_depth ≤ hard_max_face_depth
  pub items : b.max_items ≤ hard_max_face_items

-- each limit is at most the default one
pub record Within (l hard : DecodeLimits) : Type 0 where
  pub input_bytes : l.max_input_bytes ≤ hard.max_input_bytes
  pub tokens : l.max_tokens ≤ hard.max_tokens
  pub expr_nodes : l.max_expr_nodes ≤ hard.max_expr_nodes
  pub depth : l.max_depth ≤ hard.max_depth
  pub string_bytes : l.max_string_bytes ≤ hard.max_string_bytes
  pub blob_bytes : l.max_blob_bytes ≤ hard.max_blob_bytes
  pub collection_len : l.max_collection_len ≤ hard.max_collection_len
  pub trivia_items : l.max_trivia_items ≤ hard.max_trivia_items

clamp_budget-IsClamped : (b : FaceBudget) → IsClamped (clamp_budget b)
unfolding clamp_budget
clamp_budget-IsClamped b = ground arith

default_budget-IsClamped : IsClamped default_budget
unfolding default_budget
default_budget-IsClamped = omega arith

module _ (codecs : Codecs) where
  pub record IsBounded (e : EffectiveCodecPolicy codecs) : Type 0 where
    pub limits : Within e.decode_limits codecs.default_limits
    pub source : IsClamped e.source_budget
    pub result : IsClamped e.result_budget

  bound_decode_limits-Within :
      (l : DecodeLimits) → Within (bound_decode_limits codecs l) codecs.default_limits
  unfolding bound_decode_limits
  bound_decode_limits-Within l = ground arith

  pub default_policy-IsBounded : IsBounded (default_policy codecs)
  unfolding default_policy
  default_policy-IsBounded = record {
    limits = ground arith;
    source = default_budget-IsClamped;
    result = default_budget-IsClamped;
  }

  -- a replaced field satisfies what its conversion grants
  replace-keeps :
      {A B : Type 0} (Q : B → Type 0) (f : A → B) (o : Option A) (old : B)
      → ((x : A) → Q (f x))
      → Q old
      → Q (replace f o old)
  replace-keeps Q f none old new kept = kept
  replace-keeps Q f (some x) old new kept = new x

  pub apply_to-IsBounded :
      (patch : CodecPolicyPatch codecs) (e : EffectiveCodecPolicy codecs)
      → IsBounded e
      → IsBounded (apply_to codecs patch e)
  unfolding apply_to
  apply_to-IsBounded patch e h = record {
    limits =
        replace-keeps (λ l. Within l codecs.default_limits) (bound_decode_limits codecs)
          patch.decode_limits e.decode_limits bound_decode_limits-Within h.limits;
    source =
        replace-keeps IsClamped clamp_budget patch.source_budget e.source_budget
          clamp_budget-IsClamped h.source;
    result =
        replace-keeps IsClamped clamp_budget patch.result_budget e.result_budget
          clamp_budget-IsClamped h.result;
  }

  pub foldl-IsBounded :
      {A : Type 0} (f : A → CodecPolicyPatch codecs) (l : List A) (e : EffectiveCodecPolicy codecs)
      → IsBounded e
      → IsBounded (foldl (λ e x. apply_to codecs (f x) e) e l)
  foldl-IsBounded f [] e h = h
  foldl-IsBounded f (x ∷ l) e h =
      foldl-IsBounded f l (apply_to codecs (f x) e) (apply_to-IsBounded (f x) e h)

  -- Whatever the patches ask for, the resolved policy keeps every budget within the hard ceilings and
  -- every decode limit within the default one.
  pub derive-IsBounded :
      (patches : List (CodecPolicyPatch codecs)) → IsBounded (derive codecs patches)
  unfolding derive
  derive-IsBounded patches =
      foldl-IsBounded (λ p. p) patches (default_policy codecs) default_policy-IsBounded
