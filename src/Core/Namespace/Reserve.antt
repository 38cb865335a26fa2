-- ===== src/Core/Namespace/Reserve.antt =====
-- `reserve_name` and `reserve_generated_name`: a child name is reserved before its node is created.
use sim_expr_tree.Prelude.{
  ℕ, String, Bool, none, some, ok, err, next_u64, string_eq, pair_eq, if◌then◌else◌,
}
use sim_expr_tree.Prelude.Exec.{◌>>=◌, ◌>>◌, pure, check, modify}
use sim_expr_tree.Prelude.HashMap.{get, insert}
use sim_expr_tree.Core.Id.{DirId}
use sim_expr_tree.Core.Name.{NamespaceName, GeneratedNameKind, generated_name, kind_eq}
use sim_expr_tree.Core.Errors.{counter_corruption}
use sim_expr_tree.Core.Checked.{new_name}
use sim_expr_tree.Core.Namespace.State.{
  Namespace, WriterLane, Op, require_writer, ensure_parent, is_available, ensure_available,
}

module _ {P : Type 0} where
  -- `self.reservations.insert(…)`
  unfoldable pub reserve : DirId → NamespaceName → Op P (Unit {0})
  reserve parent name =
      modify (λ s. record s { reservations = insert (parent, name) tt s.reservations })

  unfoldable pub reserve_name : WriterLane → DirId → NamespaceName → Op P NamespaceName
  unfolding reserve
  reserve_name lane parent name = do
    check (require_writer lane)
    check (ensure_parent parent)
    check (ensure_available parent name)
    reserve parent name
    pure name

  -- the value of a counter; an absent one reads 0
  abbrev pub counter : Namespace P → DirId → GeneratedNameKind → ℕ
  counter s parent kind = elim (get (parent, kind) s.counters) [ none ↦ 0 | some n ↦ n ]

  -- `entry(key).or_insert(0)`, `*next += 1`: the new count is kept also where the call fails later
  unfoldable pub bump_counter : DirId → GeneratedNameKind → Op P ℕ
  bump_counter parent kind s =
      let next = next_u64 (counter s parent kind) in
      (ok next, record s { counters = insert (parent, kind) next s.counters })

  -- `legal` is sim-table-core's `is_legal_table_segment`
  unfoldable pub reserve_generated_name :
      (String → Bool) → WriterLane → DirId → GeneratedNameKind → Op P NamespaceName
  unfolding bump_counter reserve
  reserve_generated_name legal lane parent kind = do
    check (require_writer lane)
    check (ensure_parent parent)
    next ← bump_counter parent kind
    name ← check (λ _. new_name legal (generated_name kind next))
    check (λ s.
        if is_available parent name s then ok tt else err (counter_corruption parent kind name))
    reserve parent name
    pure name
