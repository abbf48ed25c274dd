-- ===== src/Release.antt =====
-- The data of a release: its index entries and their order (releaseindex.go), and the merge of an
-- upload into an index.
pub mod Index
pub mod Merge
pub mod Record
pub mod Entry
pub mod Child
mod Tests
