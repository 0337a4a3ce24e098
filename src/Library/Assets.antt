-- ===== src/Library/Assets.antt =====
-- The assets that are there: crates/api/src/routes/assets.rs, their list, a change, a deletion, and the files that are served.
use shed.Prelude.{
  ◌==◌, if◌then◌else◌, is_some, unwrap_or, option_eq, find?, keep_if, ℕ, String, ◌⊎◌, inl, inr,
  Bool, true, not, Option, none, some, List, [], ◌∷◌, map, concat, decimal, string_eq,
}
use shed.Types.{ℤ}
use shed.Types.MuxshedError.{MuxshedError, not_found, internal}
use shed.Library.Rows.{AssetRow, Library}

pub record UpdateAsset : Type 0 where
  pub name : Option String
  pub folder_id : Option (Option ℕ)
  pub loop_mode : Option String
  pub duration_ms : Option ℤ
  pub start_ms : Option ℤ
  pub opaque_ms : Option ℤ
  pub clear_ms : Option ℤ
  pub end_ms : Option ℤ
  pub audio_behaviour : Option String

-- The query's parameter: the assets of no folder, of one, or all.
pub data Shelf : Type 0 where
  loose whole : Shelf
  folder : ℕ → Shelf

abbrev pub on_shelf : Shelf → AssetRow → Bool
on_shelf loose a = not (is_some a.folder_id)
on_shelf whole a = true
on_shelf (folder id) a = option_eq a.folder_id (some id)

-- `order` is the `ORDER BY asset_type, name`.
unfoldable pub list_assets : (List AssetRow → List AssetRow) → Shelf → Library → List AssetRow
list_assets order shelf l = order (keep_if (on_shelf shelf) l.assets)

abbrev pub is_asset : ℕ → AssetRow → Bool
is_asset id a = a.id == id

abbrev pub no_asset : ℕ → MuxshedError
no_asset id = not_found (concat ("asset " ∷ decimal id ∷ []))

unfoldable pub patched : UpdateAsset → AssetRow → AssetRow
patched u a = record a {
  name = unwrap_or u.name a.name;
  folder_id = unwrap_or u.folder_id a.folder_id;
  loop_mode = unwrap_or u.loop_mode a.loop_mode;
  duration_ms = unwrap_or u.duration_ms a.duration_ms;
  start_ms = unwrap_or u.start_ms a.start_ms;
  opaque_ms = unwrap_or u.opaque_ms a.opaque_ms;
  clear_ms = unwrap_or u.clear_ms a.clear_ms;
  end_ms = unwrap_or u.end_ms a.end_ms;
  audio_behaviour = unwrap_or u.audio_behaviour a.audio_behaviour;
}

unfoldable pub update_asset : ℕ → UpdateAsset → Library → Option MuxshedError × Library
update_asset id u l = elim (find? (is_asset id) l.assets) [
  | none ↦ (some (no_asset id), l)
  | some a ↦
      (none, record l { assets = map (λ b. if is_asset id b then patched u a else b) l.assets })
]

abbrev pub without_file : String → List String → List String
without_file path files = keep_if (λ f. not (string_eq f path)) files

-- The file goes first, if it can be removed; its thumbnail stays.
unfoldable pub delete_asset : Bool → ℕ → Library → Option MuxshedError × Library
delete_asset removable id l = elim (find? (is_asset id) l.assets) [
  | none ↦ (some (no_asset id), l)
  | some a ↦ (
    none,
    record l {
      files = if removable then without_file a.file_path l.files else l.files;
      assets = keep_if (λ b. not (is_asset id b)) l.assets;
    },
  )
]

-- The answer's content type and bytes; `read` is what reading a file gives, or its error's text.
unfoldable pub serve_file :
    (String → String ⊎ List ℕ) → ℕ → Library → MuxshedError ⊎ (String × List ℕ)
serve_file read id l = elim (find? (is_asset id) l.assets) [
  | none ↦ inl (no_asset id)
  | some a ↦ elim (read a.file_path) [
    | inl e ↦ inl (internal (concat ("read file: " ∷ e ∷ [])))
    | inr bytes ↦ inr (a.mime_type, bytes)
  ]
]

unfoldable pub serve_thumbnail :
    (String → String ⊎ List ℕ) → ℕ → Library → MuxshedError ⊎ (String × List ℕ)
serve_thumbnail read id l = elim (find? (is_asset id) l.assets) [
  | none ↦ inl (no_asset id)
  | some a ↦
      let jpeg : MuxshedError ⊎ (String × List ℕ) = elim (read a.thumbnail_path) [
        | inl e ↦ inl (internal (concat ("read thumbnail: " ∷ e ∷ [])))
        | inr bytes ↦ inr ("image/jpeg", bytes)
      ] in
      if string_eq a.thumbnail_path "" then inl (not_found "no thumbnail") else jpeg
]
