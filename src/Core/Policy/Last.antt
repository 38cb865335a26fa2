-- ===== src/Core/Policy/Last.antt =====
-- Each field of a resolved policy comes from the last patch that carries it.
use mathlib.Core.List.{foldl}
use sim_expr_tree.Prelude.{◌≡◌, refl, ◌∙◌, ap, Option, none, some, List, [], ◌∷◌, map}
use sim_expr_tree.Core.Policy.{
  Codecs, CodecPolicyPatch, EffectiveCodecPolicy, default_policy, default_budget, apply_to, derive,
  replace, clamp_budget, bound_decode_limits,
}

-- the later of two optional values
abbrev pub or_earlier {ℓ} : {A : Type ℓ} → Option A → Option A → Option A
or_earlier (some later) earlier = some later
or_earlier none earlier = earlier

-- the last value that is there
unfoldable pub last_some {ℓ} : {A : Type ℓ} → List (Option A) → Option A
last_some [] = none
last_some (o ∷ rest) = or_earlier (last_some rest) o

replace-or_earlier :
    {A B : Type 0} (f : A → B) (later earlier : Option A) (old : B)
    → replace f later (replace f earlier old) ≡ replace f (or_earlier later earlier) old
replace-or_earlier f none earlier old = refl
replace-or_earlier f (some x) earlier old = refl

module _ (codecs : Codecs) where
  -- one field, followed through the patches
  field-foldl :
      {A B : Type 0} (field : CodecPolicyPatch codecs → Option A)
      (out : EffectiveCodecPolicy codecs → B) (f : A → B)
      → ((p : CodecPolicyPatch codecs) (e : EffectiveCodecPolicy codecs)
          → out (apply_to codecs p e) ≡ replace f (field p) (out e))
      → (patches : List (CodecPolicyPatch codecs)) (e : EffectiveCodecPolicy codecs)
      → out (foldl (λ e p. apply_to codecs p e) e patches)
        ≡ replace f (last_some (map field patches)) (out e)
  unfolding last_some
  field-foldl field out f step [] e = refl
  field-foldl field out f step (p ∷ rest) e =
      field-foldl field out f step rest (apply_to codecs p e)
      ∙ ap (replace f (last_some (map field rest))) (step p e)
      ∙ replace-or_earlier f (last_some (map field rest)) (field p) (out e)

  -- Each of the seven fields of the resolved policy is the one of the last patch that carries it, with
  -- budgets and decode limits bounded, and the default where no patch carries it. A patch that clears a
  -- codec carries it too.
  pub derive-last :
      (patches : List (CodecPolicyPatch codecs))
      → let e = derive codecs patches in
        (e.source_codec ≡ replace (λ c. c) (last_some (map (λ p. p.source_codec) patches)) none)
        × (e.source_position
            ≡ replace
                (λ x. x)
                (last_some (map (λ p. p.source_position) patches))
                codecs.decode_data)
        × (e.decode_limits
            ≡ replace
                (bound_decode_limits codecs)
                (last_some (map (λ p. p.decode_limits) patches))
                codecs.default_limits)
        × (e.source_budget
            ≡ replace clamp_budget (last_some (map (λ p. p.source_budget) patches)) default_budget)
        × (e.result_codec ≡ replace (λ c. c) (last_some (map (λ p. p.result_codec) patches)) none)
        × (e.result_position
            ≡ replace
                (λ x. x)
                (last_some (map (λ p. p.result_position) patches))
                codecs.encode_data)
        × (e.result_budget
            ≡ replace clamp_budget (last_some (map (λ p. p.result_budget) patches)) default_budget)
  unfolding derive
  derive-last patches =
      let start = default_policy codecs in
      (
        field-foldl (λ p. p.source_codec) (λ e. e.source_codec) (λ c. c) (λ p e. refl) patches
            start,
        field-foldl (λ p. p.source_position) (λ e. e.source_position) (λ x. x) (λ p e. refl) patches
            start,
        field-foldl (λ p. p.decode_limits) (λ e. e.decode_limits) (bound_decode_limits codecs)
            (λ p e. refl) patches start,
        field-foldl (λ p. p.source_budget) (λ e. e.source_budget) clamp_budget (λ p e. refl) patches
            start,
        field-foldl (λ p. p.result_codec) (λ e. e.result_codec) (λ c. c) (λ p e. refl) patches
            start,
        field-foldl (λ p. p.result_position) (λ e. e.result_position) (λ x. x) (λ p e. refl) patches
            start,
        field-foldl (λ p. p.result_budget) (λ e. e.result_budget) clamp_budget (λ p e. refl) patches
            start,
      )
