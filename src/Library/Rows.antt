-- ===== src/Library/Rows.antt =====
-- The rows of the library of media files: crates/api/src/routes/assets.rs. An id is a number.
use shed.Prelude.{ℕ, String, Option, List}
use shed.Types.{ℤ}

pub record AssetRow : Type 0 where
  pub id : ℕ
  pub name : String
  pub asset_type : String
  pub file_path : String
  pub file_size : ℕ
  pub mime_type : String
  pub folder_id : Option ℕ
  pub loop_mode : String
  pub duration_ms : ℤ
  pub start_ms : ℤ
  pub opaque_ms : ℤ
  pub clear_ms : ℤ
  pub end_ms : ℤ
  pub audio_behaviour : String
  pub thumbnail_path : String
  pub metadata : String
  pub created_at : String

pub record FolderRow : Type 0 where
  pub id : ℕ
  pub name : String
  pub parent_id : Option ℕ
  pub color : String
  pub created_at : String

-- `files` are the paths of the files that there are.
pub record Library : Type 0 where
  pub assets : List AssetRow
  pub folders : List FolderRow
  pub files : List String
