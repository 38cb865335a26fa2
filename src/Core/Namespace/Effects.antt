-- ===== src/Core/Namespace/Effects.antt =====
-- What a call that succeeds changes, and what it leaves alone.
pub mod Names
pub mod Cells
pub mod Policies
