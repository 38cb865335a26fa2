-- ===== src/Calc/Schedule/Best.antt =====
-- The least and the greatest entry of a list of queued calculations, and filtered lists.
use mathlib.Core.List.{Memᴰ}
use mathlib.Core.List.Memᴰ
use sim_expr_tree.Prelude.{
  ◌≤◌, Bool, true, false, ◌≡◌, ◌⊎◌, refl, ap, ◌∙◌, sym, subst, inl, inr, none, some, List, [], ◌∷◌,
  nat_eq, string_eq, arith, Bool-cases,
}
use sim_expr_tree.Prelude.Integer.{ltz, ltz_trans, ltz_asym, ltz_irrefl}
use sim_expr_tree.Calc.Schedule.{
  QueuedCalculation, earlier, outranks, filter, reduce, lesser, greater, min_by_key, max_by,
}

module _ {T : Type 0} where
  -- one entry comes no later than the other
  abbrev pub NoLater : QueuedCalculation T → QueuedCalculation T → Type 0
  NoLater q p = q.sequence ≤ p.sequence

  -- one entry has no lower priority than the other, and at the same priority it comes no later
  abbrev pub Ahead : QueuedCalculation T → QueuedCalculation T → Type 0
  Ahead q p =
      (ltz q.priority p.priority ≡ false)
      × (ltz p.priority q.priority ≡ false → q.sequence ≤ p.sequence)

  module _ (pick : QueuedCalculation T → QueuedCalculation T → QueuedCalculation T)
      (R : QueuedCalculation T → QueuedCalculation T → Type 0)
      (R_refl : (a : QueuedCalculation T) → R a a)
      (R_trans : (a b c : QueuedCalculation T) → R a b → R b c → R a c)
      (picked : (a b : QueuedCalculation T) → (pick a b ≡ a) ⊎ (pick a b ≡ b))
      (left : (a b : QueuedCalculation T) → R (pick a b) a)
      (right : (a b : QueuedCalculation T) → R (pick a b) b) where
    reduce-member :
        (best : QueuedCalculation T) (l : List (QueuedCalculation T))
        → Memᴰ (reduce pick best l) (best ∷ l)
    unfolding reduce
    reduce-member best [] = Memᴰ.head refl
    reduce-member best (q ∷ l) = elim (Memᴰ.cases_cons (reduce-member (pick best q) l)) [
      | inl same ↦ elim (picked best q) [
        | inl first ↦ Memᴰ.head (same ∙ first)
        | inr second ↦ Memᴰ.tail (Memᴰ.head (same ∙ second))
      ]
      | inr m ↦ Memᴰ.tail (Memᴰ.tail m)
    ]

    reduce-best :
        (best : QueuedCalculation T) (l : List (QueuedCalculation T)) (p : QueuedCalculation T)
        → Memᴰ p (best ∷ l)
        → R (reduce pick best l) p
    unfolding reduce
    reduce-best best [] p m = elim (Memᴰ.cases_cons m) [
      | inl same ↦ rw same (R_refl best)
      | inr gone ↦ absurd (Memᴰ.not-nil gone)
    ]
    reduce-best best (q ∷ l) p m = elim (Memᴰ.cases_cons m) [
      | inl same ↦
          rw same (
            R_trans _ _ _ (reduce-best (pick best q) l (pick best q) (Memᴰ.head refl))
              (left best q))
      | inr later ↦ elim (Memᴰ.cases_cons later) [
        | inl same ↦ rw same (
            R_trans _ _ _ (reduce-best (pick best q) l (pick best q) (Memᴰ.head refl))
              (right best q))
        | inr m' ↦ reduce-best (pick best q) l p (Memᴰ.tail m')
      ]
    ]

  filter-kept :
      (keep : QueuedCalculation T → Bool) (q : QueuedCalculation T) (l : List (QueuedCalculation T))
      → keep q ≡ true
      → filter keep (q ∷ l) ≡ q ∷ filter keep l
  unfolding filter
  filter-kept keep q l h = rw h refl

  filter-dropped :
      (keep : QueuedCalculation T → Bool) (q : QueuedCalculation T) (l : List (QueuedCalculation T))
      → keep q ≡ false
      → filter keep (q ∷ l) ≡ filter keep l
  unfolding filter
  filter-dropped keep q l h = rw h refl

  pub filter-member :
      (keep : QueuedCalculation T → Bool) (l : List (QueuedCalculation T)) (p : QueuedCalculation T)
      → Memᴰ p (filter keep l)
      → Memᴰ p l × (keep p ≡ true)
  unfolding filter
  filter-member keep [] p m = absurd (Memᴰ.not-nil m)
  filter-member keep (q ∷ l) p m = elim (Bool-cases (keep q)) [
    | inl kept ↦ elim (Memᴰ.cases_cons (subst (Memᴰ p) (filter-kept keep q l kept) m)) [
      | inl same ↦ (Memᴰ.head same, rw same kept)
      | inr m' ↦ let (old, h) = filter-member keep l p m' in (Memᴰ.tail old, h)
    ]
    | inr dropped ↦
        let (old, h) =
          filter-member keep l p (subst (Memᴰ p) (filter-dropped keep q l dropped) m) in
        (Memᴰ.tail old, h)
  ]

  pub member-filter :
      (keep : QueuedCalculation T → Bool) (l : List (QueuedCalculation T)) (p : QueuedCalculation T)
      → Memᴰ p l
      → keep p ≡ true
      → Memᴰ p (filter keep l)
  unfolding filter
  member-filter keep [] p m h = absurd (Memᴰ.not-nil m)
  member-filter keep (q ∷ l) p m h = elim (Bool-cases (keep q)) [
    | inl kept ↦ subst (Memᴰ p) (sym (filter-kept keep q l kept)) (elim (Memᴰ.cases_cons m) [
      | inl same ↦ Memᴰ.head same
      | inr m' ↦ Memᴰ.tail (member-filter keep l p m' h)
    ])
    | inr dropped ↦
        subst (Memᴰ p) (sym (filter-dropped keep q l dropped)) (elim (Memᴰ.cases_cons m) [
          | inl same ↦ absurd (ground (arith, ap keep same))
          | inr m' ↦ member-filter keep l p m' h
        ])
  ]

  lesser_picks : (a b : QueuedCalculation T) → (lesser a b ≡ a) ⊎ (lesser a b ≡ b)
  lesser_picks a b = elim (Bool-cases (earlier b a)) [
    | inl h ↦ inr (rw h refl)
    | inr h ↦ inl (rw h refl)
  ]

  greater_picks : (a b : QueuedCalculation T) → (greater a b ≡ a) ⊎ (greater a b ≡ b)
  greater_picks a b = elim (Bool-cases (outranks a b)) [
    | inl h ↦ inl (rw h refl)
    | inr h ↦ inr (rw h refl)
  ]

  lesser_left : (a b : QueuedCalculation T) → NoLater (lesser a b) a
  lesser_left a b = ground arith

  lesser_right : (a b : QueuedCalculation T) → NoLater (lesser a b) b
  lesser_right a b = ground arith

  Ahead-refl : (a : QueuedCalculation T) → Ahead a a
  Ahead-refl a = (ltz_irrefl a.priority, λ _. omega arith)

  Ahead-trans : (a b c : QueuedCalculation T) → Ahead a b → Ahead b c → Ahead a c
  Ahead-trans a b c (h, h') (k, k') = (
    ltz_trans c.priority b.priority a.priority k h,
    λ l.
        let first = h' (ltz_trans a.priority c.priority b.priority l k) in
        let second = k' (ltz_trans b.priority a.priority c.priority h l) in
        omega (arith, first, second),
  )

  greater_left : (a b : QueuedCalculation T) → Ahead (greater a b) a
  greater_left a b = elim (Bool-cases (outranks a b)) [
    | inl first ↦ rw first (Ahead-refl a)
    | inr second ↦ rw second (ground arith, λ h. ground arith)
  ]

  greater_right : (a b : QueuedCalculation T) → Ahead (greater a b) b
  greater_right a b = elim (Bool-cases (outranks a b)) [
    | inl first ↦ rw first (ground (arith, ltz_asym b.priority a.priority), λ h. ground arith)
    | inr second ↦ rw second (Ahead-refl b)
  ]

  pub min_by_key-best :
      (l : List (QueuedCalculation T)) (q : QueuedCalculation T)
      → min_by_key l ≡ some q
      → Memᴰ q l × ((p : QueuedCalculation T) → Memᴰ p l → NoLater q p)
  min_by_key-best [] q h = absurd (ground arith)
  min_by_key-best (b ∷ l) q h =
      let e : reduce lesser b l ≡ q = ground arith in
      (
        subst (λ x. Memᴰ x (b ∷ l)) e
            (reduce-member lesser NoLater (λ a. omega arith) (λ a b c h k. omega arith) lesser_picks
              lesser_left lesser_right b l),
        λ p m.
            subst (λ x. NoLater x p) e
              (reduce-best lesser NoLater (λ a. omega arith) (λ a b c h k. omega arith) lesser_picks
                lesser_left lesser_right b l p m),
      )

  pub max_by-best :
      (l : List (QueuedCalculation T)) (q : QueuedCalculation T)
      → max_by l ≡ some q
      → Memᴰ q l × ((p : QueuedCalculation T) → Memᴰ p l → Ahead q p)
  max_by-best [] q h = absurd (ground arith)
  max_by-best (b ∷ l) q h =
      let e : reduce greater b l ≡ q = ground arith in
      (
        subst (λ x. Memᴰ x (b ∷ l)) e
            (reduce-member greater Ahead Ahead-refl Ahead-trans greater_picks greater_left
              greater_right b l),
        λ p m.
            subst (λ x. Ahead x p) e
              (reduce-best greater Ahead Ahead-refl Ahead-trans greater_picks greater_left
                greater_right b l p m),
      )

  pub min_by_key-empty :
      (l : List (QueuedCalculation T)) (p : QueuedCalculation T)
      → min_by_key l ≡ none
      → Memᴰ p l
      → ⊥
  min_by_key-empty [] p h m = Memᴰ.not-nil m
  min_by_key-empty (b ∷ l) p h m = ground arith

  pub max_by-empty :
      (l : List (QueuedCalculation T)) (p : QueuedCalculation T) → max_by l ≡ none → Memᴰ p l → ⊥
  max_by-empty [] p h m = Memᴰ.not-nil m
  max_by-empty (b ∷ l) p h m = ground arith
