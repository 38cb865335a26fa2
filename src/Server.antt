-- ===== src/Server.antt =====
-- crates/sim-lib-expr-tree-server/src: sessions of the expression-tree server.
pub mod Model
pub mod Session
pub mod Registry
