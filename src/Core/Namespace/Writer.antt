-- ===== src/Core/Namespace/Writer.antt =====
-- The single serialized writer lane: `acquire_writer` and `release_writer`.
use sim_expr_tree.Prelude.{true, false, ok, err, next_u64, if◌then◌else◌}
use sim_expr_tree.Prelude.Exec.{◌>>◌, check, modify}
use sim_expr_tree.Core.Errors.{writer_already_active}
use sim_expr_tree.Core.Namespace.State.{WriterLane, Op, require_writer}

module _ {P : Type 0} where
  unfoldable pub acquire_writer : Op P WriterLane
  acquire_writer s = if s.writer_active then (err writer_already_active, s) else (
    ok (record { epoch = next_u64 s.writer_epoch }),
    record s { writer_active = true; writer_epoch = next_u64 s.writer_epoch },
  )

  unfoldable pub release_writer : WriterLane → Op P (Unit {0})
  release_writer lane = do
    check (require_writer lane)
    modify (λ s. record s { writer_active = false })
