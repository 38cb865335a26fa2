-- ===== src/Core/Namespace/Effects/Names.antt =====
-- The reservation of names: what `reserve_generated_name` hands out is free and new.
use sim_expr_tree.Prelude.{
  String, Bool, true, false, ◌≡◌, ◌≢◌, none, some, ok, string_eq, pair_eq, pair_beq_iff, arith,
  next_u64, ap, sym, is_some,
}
use sim_expr_tree.Prelude.HashMap.{get, insert, get-insert, get-insert_self}
use sim_expr_tree.Core.Id.{DirId}
use sim_expr_tree.Core.Name.{NamespaceName, GeneratedNameKind, generated_name, kind_eq}
use sim_expr_tree.Core.Checked.{new_name}
use sim_expr_tree.Core.Namespace.State.{
  Namespace, Slot, slot_beq_iff, WriterLane, is_available, reserved, child,
}
use sim_expr_tree.Core.Namespace.Reserve.{reserve, bump_counter, counter, reserve_generated_name}

module _ {P : Type 0} (legal : String → Bool) (lane : WriterLane) (parent : DirId)
    (kind : GeneratedNameKind) where
  abbrev handed_out : Namespace P → Namespace P
  handed_out s =
      let next = next_u64 (counter s parent kind) in
      record s {
        counters = insert (parent, kind) next s.counters;
        reservations = insert (parent, generated_name kind next) tt s.reservations;
      }

  reserve_generated_name-inv :
      (s t : Namespace P) (name : NamespaceName)
      → reserve_generated_name legal lane parent kind s ≡ (ok name, t)
      → (generated_name kind (next_u64 (counter s parent kind)) ≡ name)
        × (legal name ≡ true)
        × (is_available parent name s ≡ true)
        × (t ≡ handed_out s)
  unfolding reserve_generated_name bump_counter reserve new_name is_available
  reserve_generated_name-inv s t name h = (ground arith, ground arith, ground arith, ground arith)

  handed_out-reserved :
      (s : Namespace P)
      → reserved (handed_out s) parent (generated_name kind (next_u64 (counter s parent kind)))
        ≡ true
  handed_out-reserved s = ap is_some (
      get-insert_self (parent, generated_name kind (next_u64 (counter s parent kind))) tt
        s.reservations)

  handed_out-counter :
      (s : Namespace P) → counter (handed_out s) parent kind ≡ next_u64 (counter s parent kind)
  handed_out-counter s =
      ap (λ o. elim o [ none ↦ 0 | some n ↦ n ])
        (get-insert_self (parent, kind) (next_u64 (counter s parent kind)) s.counters)

  handed_out-counters :
      (s : Namespace P) (κ : DirId × GeneratedNameKind)
      → κ ≢ (parent, kind)
      → counter (handed_out s) κ.0 κ.1 ≡ counter s κ.0 κ.1
  handed_out-counters s κ other =
      let key : DirId × GeneratedNameKind = (parent, kind) in
      let next = next_u64 (counter s parent kind) in
      let kept : get κ (insert key next s.counters) ≡ get κ s.counters =
        ground (arith, get-insert key κ next s.counters, pair_beq_iff key κ) in
      ap (λ o. elim o [ none ↦ 0 | some n ↦ n ]) kept

  handed_out-others :
      (s : Namespace P) (σ : Slot)
      → σ ≢ (parent, generated_name kind (next_u64 (counter s parent kind)))
      → get σ (handed_out s).reservations ≡ get σ s.reservations
  handed_out-others s σ other =
      let slot : Slot = (parent, generated_name kind (next_u64 (counter s parent kind))) in
      ground (arith, get-insert slot σ tt s.reservations, slot_beq_iff slot σ)

  -- A generated name that is handed out is a legal segment, is that of the next count, was neither in use nor
  -- reserved under the parent, and is reserved now, and its count has moved on. All cells, directories and
  -- entries, the root, the clock and the writer are as they were, and so are every other count and reservation.
  pub reserve_generated_name-fresh :
      (s t : Namespace P) (name : NamespaceName)
      → reserve_generated_name legal lane parent kind s ≡ (ok name, t)
      → (name ≡ generated_name kind (next_u64 (counter s parent kind)))
        × (legal name ≡ true)
        × (child s parent name ≡ none)
        × (reserved s parent name ≡ false)
        × (reserved t parent name ≡ true)
        × (counter t parent kind ≡ next_u64 (counter s parent kind))
        × (t.cells ≡ s.cells)
        × (t.dirs ≡ s.dirs)
        × (t.children ≡ s.children)
        × (t.root_dir ≡ s.root_dir)
        × (t.current ≡ s.current)
        × (t.writer_epoch ≡ s.writer_epoch)
        × (t.writer_active ≡ s.writer_active)
        × ((κ : DirId × GeneratedNameKind)
            → κ ≢ (parent, kind)
            → counter t κ.0 κ.1 ≡ counter s κ.0 κ.1)
        × ((σ : Slot) → σ ≢ (parent, name) → get σ t.reservations ≡ get σ s.reservations)
  unfolding is_available
  reserve_generated_name-fresh s t name h =
      let (same, is_legal, free, e) = reserve_generated_name-inv s t name h in
      (
        sym same,
        is_legal,
        ground arith,
        ground arith,
        rw (e, sym same) (handed_out-reserved s),
        rw e (handed_out-counter s),
        ap (λ x. x.cells) e,
        ap (λ x. x.dirs) e,
        ap (λ x. x.children) e,
        ap (λ x. x.root_dir) e,
        ap (λ x. x.current) e,
        ap (λ x. x.writer_epoch) e,
        ap (λ x. x.writer_active) e,
        λ κ other. rw e (handed_out-counters s κ other),
        λ σ other. rw e (handed_out-others s σ (rw same other)),
      )
