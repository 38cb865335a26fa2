-- ===== src/View.antt =====
-- crates/sim-lib-view-expr-tree: what a rendered tree may cost.
pub mod Budget
