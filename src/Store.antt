-- ===== src/Store.antt =====
-- internal/store: the records of runs and conversations, kept in files.
pub mod Disk
pub mod Lines
pub mod Records
pub mod File
pub mod Find
pub mod Changed
pub mod Kept
pub mod Spec
pub mod Families
pub mod Represents
pub mod Refine
pub mod Listing
pub mod Paging
pub mod Limits
pub mod Compat
