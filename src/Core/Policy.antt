-- ===== src/Core/Policy.antt =====
-- crates/sim-expr-tree-core/src/policy.rs: codec policy patches and the resolved policy.
pub mod Bounds
pub mod Last
use mathlib.Core.List.{foldl}
use sim_expr_tree.Prelude.{ℕ, ◌*◌, String, Option, none, some, List, ltb, if◌then◌else◌}

abbrev pub hard_max_face_bytes : ℕ
hard_max_face_bytes = 8 * 1024 * 1024

abbrev pub hard_max_face_depth : ℕ
hard_max_face_depth = 512

abbrev pub hard_max_face_items : ℕ
hard_max_face_items = 200000

pub record FaceBudget : Type 0 where
  pub max_bytes : ℕ
  pub max_depth : ℕ
  pub max_items : ℕ

-- `FaceBudget::new`
unfoldable pub new_budget : ℕ → ℕ → ℕ → FaceBudget
new_budget max_bytes max_depth max_items = record {
  max_bytes = if ltb hard_max_face_bytes max_bytes then hard_max_face_bytes else max_bytes;
  max_depth = if ltb hard_max_face_depth max_depth then hard_max_face_depth else max_depth;
  max_items = if ltb hard_max_face_items max_items then hard_max_face_items else max_items;
}

-- `FaceBudget::default()`
unfoldable pub default_budget : FaceBudget
unfolding new_budget
default_budget = new_budget (256 * 1024) 128 16384

-- the fields of sim-codec's `DecodeLimits` that the crate reads
pub record DecodeLimits : Type 0 where
  pub max_input_bytes : ℕ
  pub max_tokens : ℕ
  pub max_expr_nodes : ℕ
  pub max_depth : ℕ
  pub max_string_bytes : ℕ
  pub max_blob_bytes : ℕ
  pub max_collection_len : ℕ
  pub max_trivia_items : ℕ

-- What sim-codec and sim-kernel supply: the positions, the position `Data` of each kind, and
-- `DecodeLimits::default()`.
pub record Codecs : Type 1 where
  pub DecodePosition : Type 0
  pub EncodePosition : Type 0
  pub decode_data : DecodePosition
  pub encode_data : EncodePosition
  pub default_limits : DecodeLimits

-- `usize::min`
abbrev pub min_usize : ℕ → ℕ → ℕ
min_usize a b = if ltb b a then b else a

module _ (codecs : Codecs) where
  pub record CodecPolicyPatch : Type 0 where
    pub source_codec : Option (Option String)
    pub source_position : Option codecs.DecodePosition
    pub decode_limits : Option DecodeLimits
    pub source_budget : Option FaceBudget
    pub result_codec : Option (Option String)
    pub result_position : Option codecs.EncodePosition
    pub result_budget : Option FaceBudget

  pub record EffectiveCodecPolicy : Type 0 where
    pub source_codec : Option String
    pub source_position : codecs.DecodePosition
    pub decode_limits : DecodeLimits
    pub source_budget : FaceBudget
    pub result_codec : Option String
    pub result_position : codecs.EncodePosition
    pub result_budget : FaceBudget

  -- `CodecPolicyPatch::empty`, `set_codec`, `clear_codec`, and the two that select one codec
  abbrev pub empty_patch : CodecPolicyPatch
  empty_patch = record {
    source_codec = none;
    source_position = none;
    decode_limits = none;
    source_budget = none;
    result_codec = none;
    result_position = none;
    result_budget = none;
  }

  unfoldable pub set_codec : String → CodecPolicyPatch
  set_codec codec = record empty_patch {
    source_codec = some (some codec);
    result_codec = some (some codec);
  }

  unfoldable pub clear_codec : CodecPolicyPatch
  clear_codec = record empty_patch { source_codec = some none; result_codec = some none }

  unfoldable pub select_source_codec : String → CodecPolicyPatch
  select_source_codec codec = record empty_patch { source_codec = some (some codec) }

  unfoldable pub select_result_codec : String → CodecPolicyPatch
  select_result_codec codec = record empty_patch { result_codec = some (some codec) }

  -- `EffectiveCodecPolicy::default()`
  unfoldable pub default_policy : EffectiveCodecPolicy
  unfolding default_budget
  default_policy = record {
    source_codec = none;
    source_position = codecs.decode_data;
    decode_limits = codecs.default_limits;
    source_budget = default_budget;
    result_codec = none;
    result_position = codecs.encode_data;
    result_budget = default_budget;
  }

  unfoldable pub bound_decode_limits : DecodeLimits → DecodeLimits
  bound_decode_limits requested =
      let hard = codecs.default_limits in
      record {
        max_input_bytes = min_usize requested.max_input_bytes hard.max_input_bytes;
        max_tokens = min_usize requested.max_tokens hard.max_tokens;
        max_expr_nodes = min_usize requested.max_expr_nodes hard.max_expr_nodes;
        max_depth = min_usize requested.max_depth hard.max_depth;
        max_string_bytes = min_usize requested.max_string_bytes hard.max_string_bytes;
        max_blob_bytes = min_usize requested.max_blob_bytes hard.max_blob_bytes;
        max_collection_len = min_usize requested.max_collection_len hard.max_collection_len;
        max_trivia_items = min_usize requested.max_trivia_items hard.max_trivia_items;
      }

-- `if let Some(x) = …`: the field is replaced by `f x`, or kept
abbrev pub replace : {A B : Type 0} → (A → B) → Option A → B → B
replace f none old = old
replace f (some x) old = f x

-- a budget is clamped again when it is applied
unfoldable pub clamp_budget : FaceBudget → FaceBudget
unfolding new_budget
clamp_budget b = new_budget b.max_bytes b.max_depth b.max_items

module _ (codecs : Codecs) where
  unfoldable pub apply_to :
      CodecPolicyPatch codecs → EffectiveCodecPolicy codecs → EffectiveCodecPolicy codecs
  unfolding bound_decode_limits clamp_budget
  apply_to patch effective = record {
    source_codec = replace (λ codec. codec) patch.source_codec effective.source_codec;
    source_position =
        replace (λ position. position) patch.source_position effective.source_position;
    decode_limits =
        replace (bound_decode_limits codecs) patch.decode_limits effective.decode_limits;
    source_budget = replace clamp_budget patch.source_budget effective.source_budget;
    result_codec = replace (λ codec. codec) patch.result_codec effective.result_codec;
    result_position =
        replace (λ position. position) patch.result_position effective.result_position;
    result_budget = replace clamp_budget patch.result_budget effective.result_budget;
  }

  -- `EffectiveCodecPolicy::derive`
  unfoldable pub derive : List (CodecPolicyPatch codecs) → EffectiveCodecPolicy codecs
  unfolding apply_to default_policy
  derive patches =
      foldl (λ effective patch. apply_to patch effective) (default_policy codecs) patches
