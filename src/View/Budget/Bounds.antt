-- ===== src/View/Budget/Bounds.antt =====
-- What a sequence of `admit` calls lets through, whatever is asked of it.
use sim_expr_tree.Prelude.{
  ℕ, ◌+◌, ◌≤◌, ◌<◌, false, ◌≡◌, ◌↔◌, ◌⊎◌, inl, inr, refl, Option, List, [], ◌∷◌, Result, ok, err,
  length, arith, Result-cases,
}
use sim_expr_tree.View.Budget.{
  RenderBudget, BudgetExhausted, RenderBudgetState, new_state, subtree, saturating_add,
  face_exceeds, admissible, admit, max_usize,
}

-- a node that is offered to the budget
pub record Node : Type 0 where
  pub depth : ℕ
  pub face : Option ℕ
  pub encoded_bytes : ℕ

-- a node is let through if its answer is `ok`
abbrev pub let_through : Node → Result BudgetExhausted (Unit {0}) → List Node → List Node
let_through n (ok _) more = n ∷ more
let_through n (err _) more = more

-- Each node is offered in turn, also after a refusal: the nodes that were let through, and the state.
unfoldable pub offer : List Node → RenderBudgetState → List Node × RenderBudgetState
offer [] s = ([], s)
offer (n ∷ rest) s =
    let x = admit n.depth n.face n.encoded_bytes s in
    let more = offer rest x.1 in (let_through n x.0 more.0, more.1)

abbrev pub total_bytes : List Node → ℕ
total_bytes [] = 0
total_bytes (n ∷ rest) = n.encoded_bytes + total_bytes rest

-- each node is within the limits on one node
abbrev pub EachFits : RenderBudget → List Node → Type 0
EachFits b [] = Unit
EachFits b (n ∷ rest) =
    ((n.depth ≤ b.depth) × (face_exceeds b.face_bytes n.face ≡ false)) × EachFits b rest

-- what a run from `s` let through, by `l`, and where it ended
record Within (s : RenderBudgetState) (l : List Node) (t : RenderBudgetState) : Type 0 where
  kept : t.budget ≡ s.budget
  counted : t.nodes_used ≡ s.nodes_used + length l
  summed : t.bytes_used ≡ s.bytes_used + total_bytes l
  nodes : t.nodes_used ≤ s.budget.nodes
  bytes : t.bytes_used ≤ s.budget.encoded_bytes
  each : EachFits s.budget l

abbrev charged : Node → RenderBudgetState → RenderBudgetState
charged n s = record s {
  nodes_used = s.nodes_used + 1;
  bytes_used = s.bytes_used + n.encoded_bytes;
}

-- the four conditions, each beside the answer
pub admit-cases :
    (n : Node) (s : RenderBudgetState)
    → s.budget.encoded_bytes < max_usize
    → ((e : BudgetExhausted) × (admit n.depth n.face n.encoded_bytes s ≡ (err e, s)))
      ⊎ ((admit n.depth n.face n.encoded_bytes s ≡ (ok tt, charged n s))
          × (s.nodes_used < s.budget.nodes)
          × (n.depth ≤ s.budget.depth)
          × (face_exceeds s.budget.face_bytes n.face ≡ false)
          × (s.bytes_used + n.encoded_bytes ≤ s.budget.encoded_bytes))
unfolding admit admissible saturating_add
admit-cases n s small = elim (Result-cases (admissible n.depth n.face n.encoded_bytes s)) [
  | inl (e, refused) ↦ inl (e, ground arith)
  | inr (u, granted) ↦ inr (ground arith, ground arith, ground arith, ground arith, ground arith)
]

offer-Within :
    (nodes : List Node) (s : RenderBudgetState)
    → s.budget.encoded_bytes < max_usize
    → s.nodes_used ≤ s.budget.nodes
    → s.bytes_used ≤ s.budget.encoded_bytes
    → Within s (offer nodes s).0 (offer nodes s).1
unfolding offer
offer-Within [] s small within_nodes within_bytes = record {
  kept = refl;
  counted = omega arith;
  summed = omega arith;
  nodes = within_nodes;
  bytes = within_bytes;
  each = tt;
}
offer-Within (n ∷ rest) s small within_nodes within_bytes = elim (admit-cases n s small) [
  | inl (e, refused) ↦ rw refused (offer-Within rest s small within_nodes within_bytes)
  | inr (granted, room, deep, face, fits) ↦
      let more = offer-Within rest (charged n s) small (omega arith) fits in
      rw granted (step more deep face)
]
  where
    step :
        Within (charged n s) (offer rest (charged n s)).0 (offer rest (charged n s)).1
        → n.depth ≤ s.budget.depth
        → face_exceeds s.budget.face_bytes n.face ≡ false
        → Within s (n ∷ (offer rest (charged n s)).0) (offer rest (charged n s)).1
    step more deep face = record {
      kept = more.kept;
      counted = omega (arith, more.counted);
      summed = omega (arith, more.summed);
      nodes = more.nodes;
      bytes = more.bytes;
      each = ((deep, face), more.each);
    }

-- Whatever nodes are offered to a new state, in whatever order, those let through are no more than the
-- budget has nodes, take together no more than its encoded bytes, and each of them is within its depth
-- and face limits, where the limit on bytes is not the greatest `usize`. Refused nodes use nothing up.
pub offer-bounded :
    (b : RenderBudget) (nodes : List Node)
    → b.encoded_bytes < max_usize
    → let l = (offer nodes (new_state b)).0 in
      (length l ≤ b.nodes) × (total_bytes l ≤ b.encoded_bytes) × EachFits b l
unfolding new_state
offer-bounded b nodes small =
    let run = offer-Within nodes (new_state b) small (omega arith) (omega arith) in
    (omega (arith, run.counted, run.nodes), omega (arith, run.summed, run.bytes), run.each)

-- A node is let through exactly if a node is left, it is no deeper than the limit, its face is no longer
-- than the limit, and the bytes used, with its own added up to the greatest `usize`, are within theirs.
pub admit_iff :
    (depth : ℕ) (face : Option ℕ) (encoded_bytes : ℕ) (s : RenderBudgetState)
    → ((admit depth face encoded_bytes s).0 ≡ ok tt) ↔ (
        (s.nodes_used < s.budget.nodes)
        × (depth ≤ s.budget.depth)
        × (face_exceeds s.budget.face_bytes face ≡ false)
        × (saturating_add s.bytes_used encoded_bytes ≤ s.budget.encoded_bytes))
unfolding admit admissible
admit_iff depth face encoded_bytes s = ground arith

-- A subtree's budget is within the whole one's in each limit and within the fixed limits of a subtree,
-- and narrowing it again changes nothing.
pub subtree-narrows :
    (b : RenderBudget)
    → ((subtree b).nodes ≤ b.nodes)
      × ((subtree b).depth ≤ b.depth)
      × ((subtree b).encoded_bytes ≤ b.encoded_bytes)
      × ((subtree b).face_bytes ≡ b.face_bytes)
      × ((subtree b).nodes ≤ 96)
      × ((subtree b).depth ≤ 12)
      × ((subtree b).encoded_bytes ≤ 65536)
      × (subtree (subtree b) ≡ subtree b)
unfolding subtree
subtree-narrows b = (
  ground arith,
  ground arith,
  ground arith,
  refl,
  ground arith,
  ground arith,
  ground arith,
  ground arith,
)
