-- ===== src/Calc.antt =====
-- crates/sim-expr-tree-calc: the automatic scheduler of the calculator.
pub mod Schedule
