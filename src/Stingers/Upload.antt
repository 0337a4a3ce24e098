-- ===== src/Stingers/Upload.antt =====
-- The upload of a stinger: crates/api/src/routes/stingers.rs, `upload`. The directory, the file and the view of a name's extension
-- are given; the multipart body is a list of fields.
use shed.Prelude.{
  ℕ, String, ◌⊎◌, inl, inr, Bool, Option, none, some, List, [], ◌∷◌, ◌++◌, concat, unwrap_or,
  string_eq, keep_if, not,
}
use shed.Types.MuxshedError.{MuxshedError, bad_request, internal}
use shed.Stingers.{Serde, StingerRow, StingerConfig, UpdateStinger, new_config, row_of, stored_name}

-- A field of the body: what it gives, or its error's text.
pub data Field : Type 0 where
  name_field : String ⊎ String → Field
  file_field : (filename : Option String) → String ⊎ List ℕ → Field
  other_field : Field
  broken : String → Field

pub record Form : Type 0 where
  pub name : Option String
  pub file_data : Option (String × List ℕ)

abbrev pub read_field : Form → Field → String ⊎ Form
read_field form (name_field (inl e)) = inl e
read_field form (name_field (inr text)) = inr (record form { name = some text })
read_field form (file_field filename (inl e)) = inl e
read_field form (file_field filename (inr bytes)) =
    inr (record form { file_data = some (unwrap_or filename "upload.webm", bytes) })
read_field form other_field = inr form
read_field form (broken e) = inl e

unfoldable pub read_form : Form → List Field → String ⊎ Form
read_form form [] = inr form
read_form form (field ∷ fields) = elim (read_field form field) [
  | inl e ↦ inl e
  | inr read ↦ read_form read fields
]

-- The new id and its text, the library's directory, and what the file system does.
pub record Store : Type 0 where
  pub id : ℕ
  pub id_text : String
  pub join : String → String
  pub create_dir : Option String
  pub create_file : String → Option String
  pub write_all : List ℕ → Option String
  pub extension : String → Option String
  pub alphanumeric : ℕ → Bool

pub record Shelves : Type 0 where
  pub rows : List StingerRow
  pub files : List String

abbrev pub nothing_given : UpdateStinger
nothing_given = record {
  name = none;
  start_ms = none;
  opaque_ms = none;
  clear_ms = none;
  end_ms = none;
  audio_behaviour = none;
}

abbrev pub path_of : Store → String → String → String
path_of d filename name =
    d.join (stored_name d.alphanumeric d.id_text name (unwrap_or (d.extension filename) "webm"))

abbrev pub failed : String → String → Shelves → (MuxshedError ⊎ StingerConfig) × Shelves
failed what e s = (inl (internal (concat (what ∷ e ∷ []))), s)

abbrev pub save :
    Serde → Store → String → String → List ℕ → Shelves → (MuxshedError ⊎ StingerConfig) × Shelves
save sd d filename name bytes s =
    let c = new_config d.id name (path_of d filename name) none nothing_given in
    let filed = record s {
      files = c.file_path ∷ keep_if (λ f. not (string_eq f c.file_path)) s.files;
    } in
    elim d.create_dir [
      | some e ↦ failed "failed to create library dir: " e s
      | none ↦ elim (d.create_file (path_of d filename name)) [
        | some e ↦ failed "failed to create file: " e s
        | none ↦ elim (d.write_all bytes) [
          | some e ↦ failed "failed to write file: " e filed
          | none ↦ (inr c, record filed { rows = s.rows ++ (row_of sd c ∷ []) })
        ]
      ]
    ]

unfoldable pub upload :
    Serde → Store → List Field → Shelves → (MuxshedError ⊎ StingerConfig) × Shelves
upload sd d fields s = elim (read_form (record { name = none; file_data = none }) fields) [
  | inl e ↦ (inl (bad_request e), s)
  | inr form ↦ elim form.file_data [
    | none ↦ (inl (bad_request "no file provided"), s)
    | some (filename, bytes) ↦ save sd d filename (unwrap_or form.name filename) bytes s
  ]
]
