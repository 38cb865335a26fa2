-- ===== src/Core/Namespace/Keeps.antt =====
-- Every operation of the namespace leaves it valid, whether it succeeds or fails.
mod Records
pub mod Trees
pub mod Cells
pub mod Dirs
pub mod Calls
pub mod Others
