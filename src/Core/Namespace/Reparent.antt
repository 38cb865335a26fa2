-- ===== src/Core/Namespace/Reparent.antt =====
-- What becomes of the depths when one directory gets another parent, appears or goes.
use sim_expr_tree.Prelude.{
  ℕ, zero, suc, ◌≡◌, ◌≢◌, inl, inr, ◌∙◌, ap, sym, subst, Option, none, some, ◌==◌, string_eq,
  Bool-cases, arith,
}
use sim_expr_tree.Core.Id.{DirId}
use sim_expr_tree.Core.Namespace.Ancestry.{Depth, Above, Above-cases, here, under}

module _ {up up' : DirId → Option DirId} (root id : DirId)
    (others : (d : DirId) → d ≢ id → up' d ≡ up d) where
  -- a directory that `id` does not stand above keeps its depth
  pub Depth-others : (n : ℕ) (d : DirId) → Depth up root n d → ¬ Above up id d → Depth up' root n d
  Depth-others zero d h apart = h
  Depth-others (suc n) d (p, e, h) apart = (
    p,
    others d (λ same. apart (here same)) ∙ e,
    Depth-others n p h (λ above. apart (under e above)),
  )

  -- with a new parent that `id` does not stand above, every directory has a depth again
  pub Depth-moved :
      (parent : DirId) (m : ℕ)
      → Depth up root m parent
      → ¬ Above up id parent
      → up' id ≡ some parent
      → (n : ℕ) (d : DirId) → Depth up root n d
      → (k : ℕ) × Depth up' root k d
  Depth-moved parent m at apart new zero d h = (0, h)
  Depth-moved parent m at apart new (suc n) d (p, e, h) = elim (Bool-cases (d == id)) [
    | inl same ↦
        let new' = subst (λ x. up' x ≡ some parent) (sym ((string_eq.beq_iff d id).0 same)) new in
        (suc m, (parent, new', Depth-others m parent at apart))
    | inr other ↦
        let (k, at') = Depth-moved parent m at apart new n p h in
        (suc k, (p, others d (λ same. ground (arith, string_eq.beq_iff d id)) ∙ e, at'))
  ]

-- nothing that has a depth stands under a directory with no parent, the root apart
pub apart_of_orphan :
    {up : DirId → Option DirId} (root id : DirId)
    → up root ≡ none
    → up id ≡ none
    → id ≢ root
    → (n : ℕ) (d : DirId) → Depth up root n d
    → ¬ Above up id d
apart_of_orphan root id top orphan not_root zero d h above = elim (Above-cases above) [
  | inl same ↦ ground arith
  | inr (p, e, above') ↦ ground (arith)
]
apart_of_orphan {up} root id top orphan not_root (suc n) d (p, e, h) above =
    elim (Above-cases above) [
      | inl same ↦ ground arith
      | inr (q, e', above') ↦
          let same : q ≡ p = ground arith in
          apart_of_orphan root id top orphan not_root n p h (subst (Above up id) same above')
    ]

-- nothing else stands under a directory that is no parent
pub apart_of_leaf :
    {up : DirId → Option DirId} (id : DirId)
    → ((d : DirId) → up d ≢ some id)
    → {d : DirId} → d ≢ id
    → ¬ Above up id d
apart_of_leaf id leaf other (here same) = other same
apart_of_leaf id leaf other (under {d = d} {p = p} e above) = elim (Bool-cases (p == id)) [
  | inl same ↦ leaf d (e ∙ ap some ((string_eq.beq_iff p id).0 same))
  | inr differs ↦ apart_of_leaf id leaf (λ same. ground (arith, string_eq.beq_iff p id)) above
]
