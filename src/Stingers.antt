-- ===== src/Stingers.antt =====
-- The stingers: crates/api/src/routes/stingers.rs. The text of an audio behaviour is serde's (`Serde`); a query does not fail. A time is
-- a `u64` that is stored as an `i64`.
pub mod Names
pub mod Times
pub mod Upload
mod Examples
use shed.Stingers.Names.{sanitize_filename}
use shed.Prelude.{
  ltb, ◌==◌, if◌then◌else◌, unwrap_or, any, find?, keep_if, ℕ, ◌-◌, ◌%◌, String, ◌⊎◌, inl, inr,
  Bool, not, Option, none, some, List, [], ◌∷◌, ◌++◌, map, concat, decimal,
}
use shed.Types.{ℤ, pos, negsuc}
use shed.Types.MuxshedError.{MuxshedError, not_found}
use shed.Pipeline as Pipeline
use shed.Pipeline.{Pipeline}

-- Rust's `as i64` of a `u64`, and `as u64` of an `i64`.
unfoldable pub as_i64 : ℕ → ℤ
as_i64 n =
    let r = n % 18446744073709551616 in
    if ltb r 9223372036854775808 then pos r else negsuc (18446744073709551615 - r)

unfoldable pub as_u64 : ℤ → ℕ
as_u64 (pos n) = n % 18446744073709551616
as_u64 (negsuc n) = 18446744073709551615 - n % 18446744073709551616

pub data StingerAudio : Type 0 where
  silent overlay replace : StingerAudio
  duck : (bits : ℕ) → StingerAudio

pub record Serde : Type 0 where
  pub print : StingerAudio → String
  pub parse : String → Option StingerAudio

pub record StingerRow : Type 0 where
  pub id : ℕ
  pub name : String
  pub file_path : String
  pub duration_ms : ℤ
  pub start_ms : ℤ
  pub opaque_ms : ℤ
  pub clear_ms : ℤ
  pub end_ms : ℤ
  pub audio_behaviour : String
  pub thumbnail_path : String

pub record StingerConfig : Type 0 where
  pub id : ℕ
  pub name : String
  pub file_path : String
  pub duration_ms : ℕ
  pub start_ms : ℕ
  pub opaque_ms : ℕ
  pub clear_ms : ℕ
  pub end_ms : ℕ
  pub audio_behaviour : StingerAudio
  pub thumbnail_path : String

-- What a request gives; a creation has the name and the path.
pub record UpdateStinger : Type 0 where
  pub name : Option String
  pub start_ms : Option ℕ
  pub opaque_ms : Option ℕ
  pub clear_ms : Option ℕ
  pub end_ms : Option ℕ
  pub audio_behaviour : Option StingerAudio

unfoldable pub into_config : Serde → StingerRow → StingerConfig
into_config sd r = record {
  id = r.id;
  name = r.name;
  file_path = r.file_path;
  duration_ms = as_u64 r.duration_ms;
  start_ms = as_u64 r.start_ms;
  opaque_ms = as_u64 r.opaque_ms;
  clear_ms = as_u64 r.clear_ms;
  end_ms = as_u64 r.end_ms;
  audio_behaviour = unwrap_or (sd.parse r.audio_behaviour) silent;
  thumbnail_path = r.thumbnail_path;
}

-- The row that is inserted for a configuration.
unfoldable pub row_of : Serde → StingerConfig → StingerRow
row_of sd c = record {
  id = c.id;
  name = c.name;
  file_path = c.file_path;
  duration_ms = as_i64 c.duration_ms;
  start_ms = as_i64 c.start_ms;
  opaque_ms = as_i64 c.opaque_ms;
  clear_ms = as_i64 c.clear_ms;
  end_ms = as_i64 c.end_ms;
  audio_behaviour = sd.print c.audio_behaviour;
  thumbnail_path = c.thumbnail_path;
}

abbrev pub is_stinger : ℕ → StingerRow → Bool
is_stinger id r = r.id == id

abbrev pub no_stinger : ℕ → MuxshedError
no_stinger id = not_found (concat ("stinger " ∷ decimal id ∷ []))

unfoldable pub get_one : Serde → ℕ → List StingerRow → MuxshedError ⊎ StingerConfig
get_one sd id rows = elim (find? (is_stinger id) rows) [
  | none ↦ inl (no_stinger id)
  | some r ↦ inr (into_config sd r)
]

unfoldable pub list : Serde → List StingerRow → List StingerConfig
list sd rows = map (into_config sd) rows

-- `id` is new; what is not given is 0, and silent.
unfoldable pub new_config : ℕ → String → String → Option ℕ → UpdateStinger → StingerConfig
new_config id name file_path duration_ms u = record {
  id = id;
  name = name;
  file_path = file_path;
  duration_ms = unwrap_or duration_ms 0;
  start_ms = unwrap_or u.start_ms 0;
  opaque_ms = unwrap_or u.opaque_ms 0;
  clear_ms = unwrap_or u.clear_ms 0;
  end_ms = unwrap_or u.end_ms 0;
  audio_behaviour = unwrap_or u.audio_behaviour silent;
  thumbnail_path = "";
}

unfoldable pub create :
    Serde
    → ℕ
    → String
    → String
    → Option ℕ
    → UpdateStinger
    → List StingerRow
    → StingerConfig × List StingerRow
create sd id name file_path duration_ms u rows =
    let c = new_config id name file_path duration_ms u in (c, rows ++ (row_of sd c ∷ []))

-- The configuration that an update leaves: what is given, over what is stored.
unfoldable pub updated : Serde → UpdateStinger → StingerRow → StingerConfig
updated sd u r = record {
  id = r.id;
  name = unwrap_or u.name r.name;
  file_path = r.file_path;
  duration_ms = as_u64 r.duration_ms;
  start_ms = unwrap_or u.start_ms (as_u64 r.start_ms);
  opaque_ms = unwrap_or u.opaque_ms (as_u64 r.opaque_ms);
  clear_ms = unwrap_or u.clear_ms (as_u64 r.clear_ms);
  end_ms = unwrap_or u.end_ms (as_u64 r.end_ms);
  audio_behaviour = unwrap_or u.audio_behaviour (unwrap_or (sd.parse r.audio_behaviour) silent);
  thumbnail_path = r.thumbnail_path;
}

-- The columns that the `UPDATE` sets.
unfoldable pub rewritten : Serde → StingerConfig → StingerRow → StingerRow
rewritten sd c r = record r {
  name = c.name;
  start_ms = as_i64 c.start_ms;
  opaque_ms = as_i64 c.opaque_ms;
  clear_ms = as_i64 c.clear_ms;
  end_ms = as_i64 c.end_ms;
  audio_behaviour = sd.print c.audio_behaviour;
}

unfoldable pub update :
    Serde → ℕ → UpdateStinger → List StingerRow → (MuxshedError ⊎ StingerConfig) × List StingerRow
update sd id u rows = elim (find? (is_stinger id) rows) [
  | none ↦ (inl (no_stinger id), rows)
  | some r ↦
      let c = updated sd u r in
      (inr c, map (λ x. if is_stinger id x then rewritten sd c x else x) rows)
]

unfoldable pub delete : ℕ → List StingerRow → Option MuxshedError × List StingerRow
delete id rows =
    if any (is_stinger id) rows
    then (none, keep_if (λ r. not (is_stinger id r)) rows)
    else (some (no_stinger id), rows)

unfoldable pub trigger : ℕ → ℕ → List StingerRow → Pipeline → Option MuxshedError × Pipeline
trigger stinger_id target_scene_id rows p =
    if any (is_stinger stinger_id) rows
    then (none, Pipeline.trigger_stinger_transition stinger_id target_scene_id p)
    else (some (no_stinger stinger_id), p)

-- The name under which an upload is stored; `id` is the new id's text and `ext` the extension, or "webm".
unfoldable pub stored_name : (ℕ → Bool) → String → String → String → String
stored_name alphanumeric id name ext =
    concat (id ∷ "_" ∷ sanitize_filename alphanumeric name ∷ "." ∷ ext ∷ [])
