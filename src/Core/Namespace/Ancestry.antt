-- ===== src/Core/Namespace/Ancestry.antt =====
-- The parents of the directories as a forest: the depth of a directory, who stands above whom, and
-- that the loops of `is_descendant` and `effective_dir_policy`, which walk up, end.
use sim_expr_tree.Prelude.{
  nat_beq, ℕ, zero, suc, ◌<◌, Bool, true, false, ◌≡◌, ◌↔◌, ◌⊎◌, inl, inr, refl, ap, subst, Option,
  none, some, ◌==◌, string_eq, Bool-cases, Option-cases, length, arith, if◌then◌else◌,
}
use sim_expr_tree.Prelude.HashMap.{HashMap, get, length_of_ranks}
use sim_expr_tree.Core.Id.{DirId}
use sim_expr_tree.Core.Node.{DirRecord}
use sim_expr_tree.Core.Namespace.Move.{parent_of, walk_up}

-- `d` is reached from `root` in `n` steps down; `up` gives the parents.
abbrev pub Depth : (DirId → Option DirId) → DirId → ℕ → DirId → Type 0
Depth up root zero d = d ≡ root
Depth up root (suc n) d = (p : DirId) × (up d ≡ some p) × Depth up root n p

-- `a` is `d`, or stands above it.
pub data Above (up : DirId → Option DirId) (a : DirId) : DirId → Type 0 where
  here : {d : DirId} → d ≡ a → Above up a d
  under : {d p : DirId} → up d ≡ some p → Above up a p → Above up a d

module _ (up : DirId → Option DirId) (root : DirId) (top : up root ≡ none) where
  -- a directory has one depth
  pub Depth-unique : (i j : ℕ) (d : DirId) → Depth up root i d → Depth up root j d → i ≡ j
  Depth-unique zero zero d h k = refl
  Depth-unique zero (suc j) d h (p, e, k) = absurd (ground (arith, ap up h))
  Depth-unique (suc i) zero d (p, e, h) k = absurd (ground (arith, ap up k))
  Depth-unique (suc i) (suc j) d (p, e, h) (q, e', k) =
      let same : q ≡ p = ground arith in
      ap suc (Depth-unique i j p h (subst (Depth up root j) same k))

  -- the walk passes a directory of every smaller depth
  Depth-at : (n i : ℕ) (d : DirId) → Depth up root n d → i < suc n → (a : DirId) × Depth up root i a
  Depth-at zero i d h lt = let same : i ≡ 0 = omega arith in (d, rw same h)
  Depth-at (suc n) i d (p, e, h) lt = elim (Bool-cases (nat_beq i (suc n))) [
    | inl last ↦ let same : i ≡ suc n = ground arith in (d, rw same (p, e, h))
    | inr lower ↦ Depth-at n i p h (ground arith)
  ]

-- the two ways to stand above
pub Above-cases :
    {up : DirId → Option DirId} {a d : DirId}
    → Above up a d
    → (d ≡ a) ⊎ ((p : DirId) × (up d ≡ some p) × Above up a p)
Above-cases (here e) = inl e
Above-cases (under {p = p} e h) = inr (p, e, h)

module _ {P : Type 0} (dirs : HashMap DirId (DirRecord P)) where
  pub found_of_parent :
      (d p : DirId)
      → parent_of dirs d ≡ some p
      → (v : DirRecord P) × (get d dirs ≡ some v) × (v.parent ≡ some p)
  unfolding parent_of
  found_of_parent d p h = elim (Option-cases (get d dirs)) [
    | inl absent ↦ absurd (ground arith)
    | inr (v, found) ↦ (v, found, ground arith)
  ]

  walk_up-none : (fuel : ℕ) (a : DirId) → walk_up dirs fuel none a ≡ some false
  unfolding walk_up
  walk_up-none zero a = refl
  walk_up-none (suc fuel) a = refl

  walk_up_step :
      (fuel : ℕ) (d a : DirId)
      → walk_up dirs (suc fuel) (some d) a
        ≡ (if d == a then some true else walk_up dirs fuel (parent_of dirs d) a)
  unfolding walk_up
  walk_up_step fuel d a = ground arith

module _ {P : Type 0} (dirs : HashMap DirId (DirRecord P)) (root : DirId) (r : DirRecord P)
    (root_found : get root dirs ≡ some r) (root_top : r.parent ≡ none) where
  pub root-top : parent_of dirs root ≡ none
  unfolding parent_of
  root-top = rw (root_found, parent_of) root_top

  pub Depth-found :
      (n : ℕ) (d : DirId)
      → Depth (parent_of dirs) root n d
      → (v : DirRecord P) × (get d dirs ≡ some v)
  Depth-found zero d h = (r, rw h root_found)
  Depth-found (suc n) d (p, e, h) = let (v, found, _) = found_of_parent dirs d p e in (v, found)

  -- A directory's depth is below the number of directories.
  pub Depth-lt-length : (n : ℕ) (d : DirId) → Depth (parent_of dirs) root n d → n < length dirs
  Depth-lt-length n d h =
      length_of_ranks (Depth (parent_of dirs) root)
        (λ i j k. Depth-unique (parent_of dirs) root root-top i j k) (suc n) dirs
        (λ i lt.
          let (a, at) = Depth-at (parent_of dirs) root root-top n i d h lt in
          let (v, found) = Depth-found i a at in (a, v, at, found))

  -- The walk ends within its fuel, and answers whether `a` is `d` or stands above it.
  abbrev pub Answers : ℕ → DirId → DirId → Type 0
  Answers fuel a d =
      (b : Bool) × (walk_up dirs fuel (some d) a ≡ some b)
      × ((b ≡ true) ↔ Above (parent_of dirs) a d)

  same-Answers : (fuel : ℕ) (a d : DirId) → (d == a) ≡ true → Answers (suc fuel) a d
  same-Answers fuel a d same = (
    true,
    rw (walk_up_step dirs fuel d a, same),
    (λ _. here ((string_eq.beq_iff d a).0 same), λ _. refl),
  )

  pub walk_up-Answers :
      (n fuel : ℕ) (a d : DirId) → Depth (parent_of dirs) root n d → n < fuel → Answers fuel a d
  walk_up-Answers n zero a d h lt = absurd (omega arith)
  walk_up-Answers zero (suc fuel) a d h lt = elim (Bool-cases (d == a)) [
    | inl same ↦ same-Answers fuel a d same
    | inr other ↦
        let none_above : parent_of dirs d ≡ none = rw h root-top in
        (
          false,
          rw (walk_up_step dirs fuel d a, other, none_above) (walk_up-none dirs fuel a),
          (
            λ x. absurd (ground arith),
            λ above. absurd (elim (Above-cases above) [
              | inl e ↦ ground (arith, string_eq.beq_iff d a)
              | inr (p, e, _) ↦ ground arith
            ]),
          ),
        )
  ]
  walk_up-Answers (suc n) (suc fuel) a d (p, e, h) lt = elim (Bool-cases (d == a)) [
    | inl same ↦ same-Answers fuel a d same
    | inr other ↦
        let (b, walks, answer) = walk_up-Answers n fuel a p h (omega arith) in
        (
          b,
          rw (walk_up_step dirs fuel d a, other, e) walks,
          (
            λ x. under e (answer.0 x),
            λ above. elim (Above-cases above) [
              | inl e' ↦ absurd (ground (arith, string_eq.beq_iff d a))
              | inr (q, e', above') ↦
                  answer.1 (subst (Above (parent_of dirs) a) (ground arith) above')
            ],
          ),
        )
  ]
