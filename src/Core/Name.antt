-- ===== src/Core/Name.antt =====
-- crates/sim-expr-tree-core/src/name.rs: child names and the families of generated names.
use Prim.Native.String.append
use Prim.Native.String.{[], ◌∷◌, ◌++◌}
use Prim.Native.Char.{Char, code}
use text.Mathlib.TextLemmas.{append_cancel_left}
use sim_expr_tree.Prelude.{
  ℕ, String, Bool, true, false, ◌≡◌, ◌≢◌, ◌∙◌, ◌↔◌, refl, sym, ap, arith, Eq,
}
use sim_expr_tree.Prelude.Decimal.{decimal, decimal_inj}

abbrev pub NamespaceName : Type 0
NamespaceName = String

pub data GeneratedNameKind : Type 0 where
  cell : GeneratedNameKind
  dir : GeneratedNameKind

unfoldable pub prefix : GeneratedNameKind → String
prefix cell = "cell"
prefix dir = "dir"

-- `format!("{}-{}", kind.prefix(), next_value)`
unfoldable pub generated_name : GeneratedNameKind → ℕ → String
unfolding prefix
generated_name kind n = prefix kind ++ ("-" ++ decimal n)

abbrev pub kind_beq : GeneratedNameKind → GeneratedNameKind → Bool
kind_beq cell cell = true
kind_beq cell dir = false
kind_beq dir cell = false
kind_beq dir dir = true

pub kind_beq_iff : (a b : GeneratedNameKind) → (kind_beq a b ≡ true) ↔ (a ≡ b)
kind_beq_iff a b = ground arith

instance abbrev pub kind_eq : Eq GeneratedNameKind
kind_eq = record { beq = kind_beq; beq_iff = kind_beq_iff }

first_code : String → ℕ
first_code [] = 0
first_code (c ∷ s) = code c

first_code-++ : (c : Char) (s t : String) → first_code ((c ∷ s) ++ t) ≡ code c
unfolding first_code
first_code-++ c s t = λ i. first_code (append.cons c s t i)

differ : ◌≢◌ {A = ℕ} 99 100
differ e = omega arith

kind_apart : (a b : GeneratedNameKind) (s t : String) → prefix a ++ s ≡ prefix b ++ t → a ≡ b
unfolding prefix
kind_apart cell cell s t h = refl
kind_apart cell dir s t h =
    absurd (differ (sym (first_code-++ "c" "ell" s) ∙ ap first_code h ∙ first_code-++ "d" "ir" t))
kind_apart dir cell s t h =
    absurd
      (differ (sym (first_code-++ "c" "ell" t) ∙ ap first_code (sym h) ∙ first_code-++ "d" "ir" s))
kind_apart dir dir s t h = refl

-- Two generated names are equal only if they are of one kind, cell or dir, and of one count: no two
-- counters of a parent, and no two values of one, give the same name.
pub generated_name_inj :
    (a b : GeneratedNameKind) (m n : ℕ)
    → generated_name a m ≡ generated_name b n
    → (a ≡ b) × (m ≡ n)
unfolding generated_name
generated_name_inj a b m n h =
    let same = kind_apart a b ("-" ++ decimal m) ("-" ++ decimal n) h in
    (
      same,
      decimal_inj m n (
          append_cancel_left "-" (decimal m) (decimal n) (
            append_cancel_left (prefix a) ("-" ++ decimal m) ("-" ++ decimal n)
              (h ∙ ap (λ k. prefix k ++ ("-" ++ decimal n)) (sym same)))),
    )
