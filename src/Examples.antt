-- ===== src/Examples.antt =====
-- Runs of the model at concrete inputs.
pub mod Session
pub mod Calls
pub mod Stores
pub mod Policies
pub mod Views
pub mod Books
pub mod Servers
pub mod Queue
