-- ===== src/Library.antt =====
-- The library of media files: crates/api/src/routes/assets.rs. A query does not fail, and the answer of a change
-- or of a new folder, which shows the row, is left out.
pub mod Rows
pub mod Kinds
pub mod Probe
pub mod Widths
pub mod Assets
pub mod Uploading
pub mod Folders
pub mod Filing
pub mod Uploads
mod Examples
