-- ===== src/Library/Uploads.antt =====
-- What an upload and the deletion of an asset leave: crates/api/src/routes/assets.rs.
use shed.Prelude.{
  unwrap_or, Option-cases, Sum-cases, any, find?, keep_if, ℕ, String, ◌≡◌, refl, ap, ◌∙◌, ◌⊎◌, inl,
  inr, true, false, not, Option, none, some, List, [], ◌∷◌, ◌++◌, arith, string_eq,
}
use mathlib.Core.Path.{subst}
use text.Mathlib.TextPositions.{eq_refl}
use shed.Types.MuxshedError.{MuxshedError}
use shed.Library.Rows.{AssetRow, Library}
use shed.Library.Assets.{is_asset, without_file, delete_asset}
use shed.Library.Uploading.{path_of, Disk, Form, Field, read_form, no_form, store, upload_asset}

-- What an upload leaves, by its result: a new row under the new id, whose file is there; or the rows as they were.
abbrev pub Uploaded : ℕ → Library → (MuxshedError ⊎ AssetRow) × Library → Type 0
Uploaded id l (inl e, l') = (l'.assets ≡ l.assets) × (l'.folders ≡ l.folders)
Uploaded id l (inr row, l') =
    (row.id ≡ id)
    × (l'.assets ≡ l.assets ++ (row ∷ []))
    × (l'.folders ≡ l.folders)
    × (any (λ f. string_eq f row.file_path) l'.files ≡ true)

file_there :
    (path : String) (files : List String)
    → any (λ f. string_eq f path) (path ∷ without_file path files) ≡ true
file_there path files = rw (eq_refl path) refl

module _ (d : Disk) where
  store-Uploaded :
      (form : Form) (filename : String) (bytes : List ℕ) (content_type : String) (l : Library)
      → Uploaded d.id l (store d form filename bytes content_type l)
  store-Uploaded form filename bytes content_type l = elim (Option-cases d.create_dir) [
    | inr (e, h) ↦ rw (store, h) (refl, refl)
    | inl h ↦
        elim (Option-cases (d.create_file (path_of d (unwrap_or (d.extension filename) "")))) [
          | inr (e, q) ↦ rw (store, h, q) (refl, refl)
          | inl q ↦ elim (Option-cases (d.write_all bytes)) [
            | inr (e, w) ↦ rw (store, h, q, w) (refl, refl)
            | inl w ↦
                rw (store, h, q, w)
                  (
                    refl,
                    refl,
                    refl,
                    file_there (path_of d (unwrap_or (d.extension filename) "")) l.files,
                  )
          ]
        ]
  ]

  pub upload_asset-Uploaded :
      (fields : List Field) (l : Library) → Uploaded d.id l (upload_asset d fields l)
  unfolding upload_asset
  upload_asset-Uploaded fields l = elim (Sum-cases (read_form d.folder_of no_form fields)) [
    | inl (e, h) ↦ rw (upload_asset, h) (refl, refl)
    | inr (form, h) ↦ elim (Option-cases form.file_data) [
      | inl none_given ↦ rw (upload_asset, h, none_given) (refl, refl)
      | inr ((filename, (bytes, content_type)), given) ↦
          rw (upload_asset, h, given) (store-Uploaded form filename bytes content_type l)
    ]
  ]

fresh_find :
    (id : ℕ) (assets : List AssetRow) (row : AssetRow)
    → any (is_asset id) assets ≡ false
    → row.id ≡ id
    → (find? (is_asset id) (assets ++ (row ∷ [])) ≡ some row)
      × (keep_if (λ a. not (is_asset id a)) (assets ++ (row ∷ [])) ≡ assets)
fresh_find id [] row fresh e = (ground (arith, e), ground (arith, e))
fresh_find id (a ∷ assets) row fresh e = ground (arith, fresh, fresh_find id assets row)

forgotten :
    (path : String) (files : List String)
    → any (λ f. string_eq f path) (without_file path files) ≡ false
forgotten path [] = refl
forgotten path (f ∷ files) = ground (arith, forgotten path files)

-- The rows are as they were, and no file is at the path.
abbrev pub Restored : Library → String → Option MuxshedError × Library → Type 0
Restored l path (some e, l') = ⊥
Restored l path (none, l') =
    (l'.assets ≡ l.assets)
    × (l'.folders ≡ l.folders)
    × (any (λ f. string_eq f path) l'.files ≡ false)

deleted-Restored :
    (id : ℕ) (l l' : Library) (row : AssetRow)
    → any (is_asset id) l.assets ≡ false
    → Uploaded id l (inr row, l')
    → Restored l row.file_path (delete_asset true id l')
unfolding delete_asset
deleted-Restored id l l' row fresh (e, assets, folders, there) =
    let (found, rest) = fresh_find id l.assets row fresh e in
    let hit : find? (is_asset id) l'.assets ≡ some row = ap (find? (is_asset id)) assets ∙ found in
    rw (delete_asset, hit)
      (
        ap (keep_if (λ a. not (is_asset id a))) assets ∙ rest,
        folders,
        forgotten row.file_path l'.files,
      )

-- After an upload of a file that succeeds, under a new id, the deletion of the asset succeeds too, restores the rows, and its file,
-- which can be removed, is gone.
pub upload-delete :
    (d : Disk) (fields : List Field) (l : Library) (row : AssetRow)
    → any (is_asset d.id) l.assets ≡ false
    → (upload_asset d fields l).0 ≡ inr row
    → Restored l row.file_path (delete_asset true d.id (upload_asset d fields l).1)
upload-delete d fields l row fresh made =
    deleted-Restored d.id l (upload_asset d fields l).1 row fresh (
      subst (λ r. Uploaded d.id l (r, (upload_asset d fields l).1)) made
        (upload_asset-Uploaded d fields l))
