-- ===== src/Library/Filing.antt =====
-- Where assets are filed: crates/api/src/routes/assets.rs, `delete_folder` and `list_assets`.
use shed.Prelude.{
  String, ◌==◌, if◌then◌else◌, Bool-cases, option_eq, any, keep_if, ℕ, ◌≡◌, refl, ap, inl, inr,
  false, not, Option, none, some, List, [], ◌∷◌, map, arith,
}
use shed.Types.MuxshedError.{MuxshedError}
use shed.Library.Rows.{AssetRow, FolderRow, Library}
use shed.Library.Assets.{folder, on_shelf, list_assets}
use shed.Library.Folders.{is_folder, to_root, orphaned, delete_folder}

module _ (id : ℕ) where
  shelved :
      (j : ℕ) (assets : List AssetRow)
      → keep_if (on_shelf (folder j)) (map (to_root id) assets)
        ≡ (if id == j then [] else keep_if (on_shelf (folder j)) assets)
  shelved j [] = ground arith
  shelved j (a ∷ assets) = ground (arith, shelved j assets)

  ids-to_root :
      (assets : List AssetRow) → map (λ a. a.id) (map (to_root id) assets) ≡ map (λ a. a.id) assets
  ids-to_root [] = refl
  ids-to_root (a ∷ assets) = ground (arith, ids-to_root assets)

  unparented :
      (folders : List FolderRow)
      → any (λ f. option_eq f.parent_id (some id)) (map (orphaned id) folders) ≡ false
  unparented [] = refl
  unparented (f ∷ folders) = ground (arith, unparented folders)

  removed :
      (folders : List FolderRow)
      → any (is_folder id) (map (orphaned id) (keep_if (λ f. not (is_folder id f)) folders)) ≡ false
  removed [] = refl
  removed (f ∷ folders) = ground (arith, removed folders)

-- A folder's row but its parent.
abbrev pub about_folder : FolderRow → ℕ × (String × (String × String))
about_folder f = (f.id, (f.name, (f.color, f.created_at)))

-- The parent of a folder once folder `id` is gone.
abbrev pub parent_without : ℕ → Option ℕ → Option ℕ
parent_without id none = none
parent_without id (some p) = if p == id then none else some p

kept_folders :
    (id : ℕ) (folders : List FolderRow)
    → (map about_folder (map (orphaned id) folders) ≡ map about_folder folders)
      × (map (λ f. f.parent_id) (map (orphaned id) folders)
          ≡ map (λ f. parent_without id f.parent_id) folders)
kept_folders id [] = (refl, refl)
kept_folders id (f ∷ folders) =
    (ground (arith, (kept_folders id folders).0), ground (arith, (kept_folders id folders).1))

-- What a deletion of a folder leaves of the assets and files: no asset in it, every asset there was, and every other folder with
-- the assets it held.
pub record IsEmptied (id : ℕ) (order : List AssetRow → List AssetRow) (l l' : Library)
    : Type 0 where
  pub listed :
      (j : ℕ)
      → list_assets order (folder j) l'
        ≡ order (if id == j then [] else keep_if (on_shelf (folder j)) l.assets)
  pub kept : map (λ a. a.id) l'.assets ≡ map (λ a. a.id) l.assets
  pub files : l'.files ≡ l.files

abbrev pub FolderDeleted :
    ℕ → (List AssetRow → List AssetRow) → Library → Option MuxshedError × Library → Type 0
FolderDeleted id order l (none, l') =
    IsEmptied id order l l'
    × (any (is_folder id) l'.folders ≡ false)
    × (any (λ f. option_eq f.parent_id (some id)) l'.folders ≡ false)
    × (map about_folder l'.folders ≡ map about_folder (keep_if (λ f. not (f.id == id)) l.folders))
    × (map (λ f. f.parent_id) l'.folders
        ≡ map (λ f. parent_without id f.parent_id) (keep_if (λ f. not (f.id == id)) l.folders))
FolderDeleted id order l (some e, l') = IsEmptied id order l l' × (l'.folders ≡ l.folders)

module _ (id : ℕ) (order : List AssetRow → List AssetRow) (l : Library) where
  moved-IsEmptied :
      (folders : List FolderRow)
      → IsEmptied id order l (record l { assets = map (to_root id) l.assets; folders = folders })
  unfolding list_assets
  moved-IsEmptied folders = record {
    listed = λ j. ap order (shelved id j l.assets);
    kept = ids-to_root id l.assets;
    files = refl;
  }

  -- The deletion of a folder loses no asset: those of the folder go to the root, other folders stay, with their names and
  -- what they list, under the parents they had but the one that is gone. The assets are moved even when there is no such folder.
  pub delete_folder-Deleted : FolderDeleted id order l (delete_folder id l)
  unfolding delete_folder
  delete_folder-Deleted = elim (Bool-cases (any (is_folder id) l.folders)) [
    | inl there ↦
        rw (delete_folder, there)
          (
            moved-IsEmptied _,
            removed id l.folders,
            unparented id (keep_if (λ f. not (is_folder id f)) l.folders),
            (kept_folders id (keep_if (λ f. not (is_folder id f)) l.folders)).0,
            (kept_folders id (keep_if (λ f. not (is_folder id f)) l.folders)).1,
          )
    | inr absent ↦ rw (delete_folder, absent) (moved-IsEmptied _, refl)
  ]
