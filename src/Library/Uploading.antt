-- ===== src/Library/Uploading.antt =====
-- The upload of an asset: crates/api/src/routes/assets.rs, `upload_asset`. The multipart body is a list of fields; the file system and
-- the processes of a probe are given (`Disk`).
use shed.Prelude.{
  Bool, if◌then◌else◌, unwrap_or, length, ℕ, String, ◌⊎◌, inl, inr, Option, none, some, List, [],
  ◌∷◌, ◌++◌, concat, string_eq,
}
use shed.Types.{pos}
use shed.Types.MuxshedError.{MuxshedError, bad_request, internal}
use shed.Library.Rows.{AssetRow, Library}
use shed.Library.Kinds.{asset_type_of, mime_of, clean_name}
use shed.Stingers.{as_i64}
use shed.Library.Probe.{
  Floats, Probed, ProbeResult, Frames, probe_file, default_result, generate_thumbnail,
}
use shed.Library.Assets.{without_file}

-- A field of the body: it is read, or its error's text.
pub data Field : Type 0 where
  name_field folder_field : String ⊎ String → Field
  file_field : (filename content_type : Option String) → String ⊎ List ℕ → Field
  other_field : Field
  broken : String → Field

pub record Form : Type 0 where
  pub name : Option String
  pub folder_id : Option ℕ
  pub file_data : Option (String × (List ℕ × String))

-- An id that is empty is none; `folder_of` is the id's number.
abbrev pub read_field : (String → ℕ) → Form → Field → String ⊎ Form
read_field folder_of form (name_field (inl e)) = inl e
read_field folder_of form (name_field (inr text)) = inr (record form { name = some text })
read_field folder_of form (folder_field (inl e)) = inl e
read_field folder_of form (folder_field (inr text)) =
    inr (if string_eq text "" then form else record form { folder_id = some (folder_of text) })
read_field folder_of form (file_field filename content_type (inl e)) = inl e
read_field folder_of form (file_field filename content_type (inr bytes)) = inr (record form {
  file_data =
      some
        (unwrap_or filename "upload", (bytes, unwrap_or content_type "application/octet-stream"));
})
read_field folder_of form other_field = inr form
read_field folder_of form (broken e) = inl e

unfoldable pub read_form : (String → ℕ) → Form → List Field → String ⊎ Form
read_form folder_of form [] = inr form
read_form folder_of form (field ∷ fields) = elim (read_field folder_of form field) [
  | inl e ↦ inl e
  | inr read ↦ read_form folder_of read fields
]

abbrev pub no_form : Form
no_form = record { name = none; folder_id = none; file_data = none }

-- The new id with its text, a path in the library's directory, the creation of the directory and of the file, the writing of the
-- bytes, what the probe and the frames give (`Probe`), the JSON text of a probe's result, a path in the thumbnails' directory, the
-- time, a name's extension in lower case, or none, and what is alphanumeric.
pub record Disk : Type 0 where
  pub id : ℕ
  pub id_text : String
  pub join : String → String
  pub create_dir : Option String
  pub create_file : String → Option String
  pub write_all : List ℕ → Option String
  pub floats : Floats
  pub probed : Option Probed
  pub print : ProbeResult → String
  pub frames : Frames
  pub thumb_join : String → String
  pub now : String
  pub extension : String → Option String
  pub alphanumeric : ℕ → Bool
  pub folder_of : String → ℕ

abbrev pub path_of : Disk → String → String
path_of d ext = d.join (concat (d.id_text ∷ "." ∷ ext ∷ []))

abbrev pub new_asset : Disk → Form → String → List ℕ → String → AssetRow
new_asset d form filename bytes content_type =
    let ext = unwrap_or (d.extension filename) "" in
    let kind = asset_type_of ext content_type in
    let probe = probe_file d.floats d.probed in
    record {
      id = d.id;
      name = unwrap_or form.name (clean_name d.alphanumeric filename);
      asset_type = kind;
      file_path = path_of d ext;
      file_size = length bytes;
      mime_type = mime_of ext content_type;
      folder_id = form.folder_id;
      loop_mode = "one_shot";
      duration_ms = elim probe [ none ↦ pos 0 | some p ↦ as_i64 p.duration_ms ];
      start_ms = pos 0;
      opaque_ms = pos 0;
      clear_ms = pos 0;
      end_ms = pos 0;
      audio_behaviour = "\"silent\"";
      thumbnail_path =
          if string_eq kind "image"
          then ""
          else unwrap_or (generate_thumbnail d.frames d.thumb_join d.id_text) "";
      metadata = d.print (unwrap_or probe default_result);
      created_at = d.now;
    }

abbrev failed : String → String → Library → (MuxshedError ⊎ AssetRow) × Library
failed what e l = (inl (internal (concat (what ∷ e ∷ []))), l)

-- A file whose bytes cannot be written is there, without a row.
abbrev pub store :
    Disk → Form → String → List ℕ → String → Library → (MuxshedError ⊎ AssetRow) × Library
store d form filename bytes content_type l =
    let row = new_asset d form filename bytes content_type in
    let filed = record l { files = row.file_path ∷ without_file row.file_path l.files } in
    elim d.create_dir [
      | some e ↦ failed "create dir: " e l
      | none ↦ elim (d.create_file row.file_path) [
        | some e ↦ failed "create file: " e l
        | none ↦ elim (d.write_all bytes) [
          | some e ↦ failed "write file: " e filed
          | none ↦ (inr row, record filed { assets = l.assets ++ (row ∷ []) })
        ]
      ]
    ]

unfoldable pub upload_asset : Disk → List Field → Library → (MuxshedError ⊎ AssetRow) × Library
upload_asset d fields l = elim (read_form d.folder_of no_form fields) [
  | inl e ↦ (inl (bad_request e), l)
  | inr form ↦ elim form.file_data [
    | none ↦ (inl (bad_request "no file provided"), l)
    | some (filename, (bytes, content_type)) ↦ store d form filename bytes content_type l
  ]
]
