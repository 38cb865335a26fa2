-- ===== src/Book.antt =====
-- crates/sim-lib-expedition-book: the editable book, its canonical text and its archive.
pub mod Model
pub mod Edit
pub mod Codec
pub mod Archive
pub mod Projection
