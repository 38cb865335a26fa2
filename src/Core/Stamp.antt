-- ===== src/Core/Stamp.antt =====
-- crates/sim-expr-tree-core/src/stamp.rs
use sim_expr_tree.Prelude.{ℕ, Option, next_u64}

pub record RevisionTick : Type 0 where
  pub revision : ℕ
  pub logical_tick : ℕ

-- `RevisionTick::default()`
abbrev pub initial_tick : RevisionTick
initial_tick = record { revision = 0; logical_tick = 0 }

-- `+ 1` on two `u64`
unfoldable pub next_after : RevisionTick → RevisionTick
next_after t = record { revision = next_u64 t.revision; logical_tick = next_u64 t.logical_tick }

pub record Stamp : Type 0 where
  pub revision_tick : RevisionTick
  -- milliseconds of the wall clock
  pub wall_time_ms : Option ℕ
