-- ===== src/Examples/Views.antt =====
-- The theorems on rendering budgets at small budgets.
use sim_expr_tree.Prelude.{◌≤◌, ◌<◌, ◌≡◌, ◌↔◌, false, none, some, List, [], ◌∷◌, ok, length, arith}
use sim_expr_tree.View.Budget.{
  RenderBudget, new_budget, new_state, subtree, interactive, saturating_add, face_exceeds, admit,
}
use sim_expr_tree.View.Budget.Bounds.{
  Node, offer, total_bytes, EachFits, offer-bounded, admit_iff, subtree-narrows,
}

abbrev small : RenderBudget
small = new_budget 2 3 100 10

abbrev nodes : List Node
nodes =
    record { depth = 0; face = some 4; encoded_bytes = 60 }
    ∷ record { depth = 1; face = none; encoded_bytes = 60 }
    ∷ record { depth = 1; face = none; encoded_bytes = 30 }
    ∷ record { depth = 2; face = none; encoded_bytes = 1 }
    ∷ []

offer-bounded_example :
    let l = (offer nodes (new_state small)).0 in
    (length l ≤ 2) × (total_bytes l ≤ 100) × EachFits small l
offer-bounded_example = offer-bounded small nodes (omega arith)

admit_iff_example : ((admit 1 (some 4) 60 (new_state small)).0 ≡ ok tt) ↔ (
    ((new_state small).nodes_used < (new_state small).budget.nodes)
    × (1 ≤ (new_state small).budget.depth)
    × (face_exceeds (new_state small).budget.face_bytes (some 4) ≡ false)
    × (saturating_add (new_state small).bytes_used 60 ≤ (new_state small).budget.encoded_bytes))
admit_iff_example = admit_iff 1 (some 4) 60 (new_state small)

subtree-narrows_example :
    ((subtree interactive).nodes ≤ interactive.nodes)
    × ((subtree interactive).depth ≤ interactive.depth)
    × ((subtree interactive).encoded_bytes ≤ interactive.encoded_bytes)
    × ((subtree interactive).face_bytes ≡ interactive.face_bytes)
    × ((subtree interactive).nodes ≤ 96)
    × ((subtree interactive).depth ≤ 12)
    × ((subtree interactive).encoded_bytes ≤ 65536)
    × (subtree (subtree interactive) ≡ subtree interactive)
subtree-narrows_example = subtree-narrows interactive
