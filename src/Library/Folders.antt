-- ===== src/Library/Folders.antt =====
-- The folders: crates/api/src/routes/assets.rs.
use shed.Prelude.{
  ◌==◌, if◌then◌else◌, unwrap_or, option_eq, any, keep_if, ℕ, String, Bool, not, Option, none, some,
  [], ◌∷◌, ◌++◌, map, concat, decimal,
}
use shed.Types.MuxshedError.{MuxshedError, not_found, database}
use shed.Library.Rows.{AssetRow, FolderRow, Library}

abbrev pub is_folder : ℕ → FolderRow → Bool
is_folder id f = f.id == id

-- A parent that is not there is refused by the foreign key, with SQLite's text.
unfoldable pub create_folder :
    ℕ
    → String
    → Option ℕ
    → Option String
    → String
    → String
    → Library
    → Option MuxshedError × Library
create_folder id name parent_id color now refusal l =
    let made = record l {
      folders =
          l.folders
          ++ (record {
            id = id;
            name = name;
            parent_id = parent_id;
            color = unwrap_or color "#6366f1";
            created_at = now;
          }
              ∷ []);
    } in
    elim parent_id [
      | none ↦ (none, made)
      | some p ↦ if any (is_folder p) l.folders then (none, made) else (some (database refusal), l)
    ]

abbrev pub no_folder : ℕ → MuxshedError
no_folder id = not_found (concat ("folder " ∷ decimal id ∷ []))

unfoldable pub update_folder :
    ℕ → Option String → Option String → Library → Option MuxshedError × Library
update_folder id name color l =
    if any (is_folder id) l.folders
    then (
      none,
      record l {
        folders =
            map
              (λ f.
                if is_folder id f
                then record f { name = unwrap_or name f.name; color = unwrap_or color f.color }
                else f)
              l.folders;
      },
    )
    else (some (no_folder id), l)

abbrev pub to_root : ℕ → AssetRow → AssetRow
to_root id a = if option_eq a.folder_id (some id) then record a { folder_id = none } else a

-- A folder within it loses its parent (`ON DELETE SET NULL`).
abbrev pub orphaned : ℕ → FolderRow → FolderRow
orphaned id f = if option_eq f.parent_id (some id) then record f { parent_id = none } else f

-- The assets go to the root, whether or not there is the folder.
unfoldable pub delete_folder : ℕ → Library → Option MuxshedError × Library
delete_folder id l =
    let moved = record l { assets = map (to_root id) l.assets } in
    if any (is_folder id) l.folders
    then (
      none,
      record moved { folders = map (orphaned id) (keep_if (λ f. not (is_folder id f)) l.folders) },
    )
    else (some (no_folder id), moved)
