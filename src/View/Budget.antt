-- ===== src/View/Budget.antt =====
-- crates/sim-lib-view-expr-tree/src/budget.rs: the budgets of one rendering.
pub mod Bounds
use sim_expr_tree.Prelude.{
  ℕ, ◌+◌, ◌-◌, ◌*◌, ◌^◌, String, Bool, true, false, Option, none, some, Result, ok, err, ltb, leb,
  if◌then◌else◌,
}
use sim_expr_tree.Prelude.Exec.{Exec, ◌>>◌, check, modify}

pub record RenderBudget : Type 0 where
  pub nodes : ℕ
  pub depth : ℕ
  pub encoded_bytes : ℕ
  pub face_bytes : ℕ

-- `RenderBudget::new`
abbrev pub new_budget : ℕ → ℕ → ℕ → ℕ → RenderBudget
new_budget nodes depth encoded_bytes face_bytes = record {
  nodes = nodes;
  depth = depth;
  encoded_bytes = encoded_bytes;
  face_bytes = face_bytes;
}

unfoldable pub interactive : RenderBudget
interactive = new_budget 512 32 (256 * 1024) (8 * 1024)

abbrev pub min : ℕ → ℕ → ℕ
min left right = if ltb left right then left else right

unfoldable pub subtree : RenderBudget → RenderBudget
subtree b =
    new_budget (min b.nodes 96) (min b.depth 12) (min b.encoded_bytes (64 * 1024)) b.face_bytes

pub data BudgetExhausted : Type 0 where
  nodes_limit : ℕ → BudgetExhausted
  depth_limit : ℕ → BudgetExhausted
  encoded_bytes_limit : ℕ → BudgetExhausted
  face_bytes_limit : ℕ → BudgetExhausted

unfoldable pub malformed : RenderBudget → BudgetExhausted
malformed b = encoded_bytes_limit b.encoded_bytes

unfoldable pub reason : BudgetExhausted → String
reason (nodes_limit n) = "nodes"
reason (depth_limit n) = "depth"
reason (encoded_bytes_limit n) = "encoded-bytes"
reason (face_bytes_limit n) = "face-bytes"

unfoldable pub limit : BudgetExhausted → ℕ
limit (nodes_limit n) = n
limit (depth_limit n) = n
limit (encoded_bytes_limit n) = n
limit (face_bytes_limit n) = n

pub record RenderBudgetState : Type 0 where
  pub budget : RenderBudget
  pub nodes_used : ℕ
  pub bytes_used : ℕ

-- `RenderBudgetState::new`
unfoldable pub new_state : RenderBudget → RenderBudgetState
new_state budget = record { budget = budget; nodes_used = 0; bytes_used = 0 }

abbrev pub max_usize : ℕ
max_usize = 2 ^ 64 - 1

-- `usize::saturating_add`
unfoldable pub saturating_add : ℕ → ℕ → ℕ
saturating_add a b = if ltb max_usize (a + b) then max_usize else a + b

-- `face.is_some_and(|value| value.len() > limit)`; a face is given by its length in bytes
unfoldable pub face_exceeds : ℕ → Option ℕ → Bool
face_exceeds face_limit none = false
face_exceeds face_limit (some bytes) = ltb face_limit bytes

-- the four tests of `admit`, in their order
unfoldable pub admissible : ℕ → Option ℕ → ℕ → RenderBudgetState → Result BudgetExhausted (Unit {0})
unfolding face_exceeds saturating_add
admissible depth face encoded_bytes s =
    if leb s.budget.nodes s.nodes_used
    then err (nodes_limit s.budget.nodes)
    else if ltb s.budget.depth depth
    then err (depth_limit s.budget.depth)
    else if face_exceeds s.budget.face_bytes face
    then err (face_bytes_limit s.budget.face_bytes)
    else if ltb s.budget.encoded_bytes (saturating_add s.bytes_used encoded_bytes)
    then err (encoded_bytes_limit s.budget.encoded_bytes)
    else ok tt

-- the count of nodes stays below its limit, so `+ 1` does not wrap
unfoldable pub admit : ℕ → Option ℕ → ℕ → Exec RenderBudgetState BudgetExhausted (Unit {0})
unfolding admissible saturating_add
admit depth face encoded_bytes = do
  check (admissible depth face encoded_bytes)
  modify (λ s. record s {
    nodes_used = s.nodes_used + 1;
    bytes_used = saturating_add s.bytes_used encoded_bytes;
  })
