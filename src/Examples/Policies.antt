-- ===== src/Examples/Policies.antt =====
-- The theorems on policies, with concrete positions and limits.
use sim_expr_tree.Prelude.{◌≡◌, refl, inl, none, some, List, [], ◌∷◌, map, ok}
use sim_expr_tree.Core.Policy.{
  Codecs, DecodeLimits, CodecPolicyPatch, set_codec, clear_codec, empty_patch, derive, apply_to,
  default_policy, default_budget, replace, bound_decode_limits, clamp_budget,
}
use sim_expr_tree.Core.Policy.Bounds.{IsBounded, derive-IsBounded}
use sim_expr_tree.Core.Policy.Last.{last_some, derive-last}
use sim_expr_tree.Prelude.HashMap.{get}
use sim_expr_tree.Core.Namespace.State.{Namespace, new}
use sim_expr_tree.Core.Namespace.Inherit.{effective_dir_policy}
use sim_expr_tree.Core.Namespace.Effects.Policies.{effective_policy-IsBounded}

data Position : Type 0 where
  data_position text_position : Position

abbrev limits : DecodeLimits
limits = record {
  max_input_bytes = 1000;
  max_tokens = 100;
  max_expr_nodes = 100;
  max_depth = 10;
  max_string_bytes = 500;
  max_blob_bytes = 500;
  max_collection_len = 50;
  max_trivia_items = 50;
}

abbrev codecs : Codecs
codecs = record {
  DecodePosition = Position;
  EncodePosition = Position;
  decode_data = data_position;
  encode_data = data_position;
  default_limits = limits;
}

-- asks for more than the ceiling
abbrev greedy : CodecPolicyPatch codecs
greedy = record (empty_patch codecs) {
  source_budget = some (record { max_bytes = 99999999; max_depth = 3; max_items = 7 });
  decode_limits = some (record limits { max_depth = 4000 });
}

abbrev patches : List (CodecPolicyPatch codecs)
patches = set_codec codecs "lisp" ∷ greedy ∷ clear_codec codecs ∷ []

derive-IsBounded_example : IsBounded codecs (derive codecs patches)
derive-IsBounded_example = derive-IsBounded codecs patches

derive-last_example :
    let e = derive codecs patches in
    (e.source_codec ≡ replace (λ c. c) (last_some (map (λ p. p.source_codec) patches)) none)
    × (e.source_position
        ≡ replace (λ x. x) (last_some (map (λ p. p.source_position) patches)) codecs.decode_data)
    × (e.decode_limits
        ≡ replace
            (bound_decode_limits codecs)
            (last_some (map (λ p. p.decode_limits) patches))
            codecs.default_limits)
    × (e.source_budget
        ≡ replace clamp_budget (last_some (map (λ p. p.source_budget) patches)) default_budget)
    × (e.result_codec ≡ replace (λ c. c) (last_some (map (λ p. p.result_codec) patches)) none)
    × (e.result_position
        ≡ replace (λ x. x) (last_some (map (λ p. p.result_position) patches)) codecs.encode_data)
    × (e.result_budget
        ≡ replace clamp_budget (last_some (map (λ p. p.result_budget) patches)) default_budget)
derive-last_example = derive-last codecs patches

abbrev tree : Namespace (CodecPolicyPatch codecs)
tree = new greedy "tree" "root"

root_policy :
    effective_dir_policy (apply_to codecs) (default_policy codecs) tree "root"
    ≡ some (ok (apply_to codecs greedy (default_policy codecs)))
unfolding effective_dir_policy new get
root_policy = refl

effective_policy-IsBounded_example :
    IsBounded codecs (apply_to codecs greedy (default_policy codecs))
effective_policy-IsBounded_example =
    effective_policy-IsBounded codecs tree (apply_to codecs greedy (default_policy codecs))
      (inl ("root", root_policy))
