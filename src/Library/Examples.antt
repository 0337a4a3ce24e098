-- ===== src/Library/Examples.antt =====
-- Tests and instances for the library of media files.
use shed.Prelude.{false, concat, ltb, ◌≡◌, refl, inr, true, none, some, List, [], ◌∷◌, map}
use shed.Types.{pos}
use shed.Library.Rows.{AssetRow, Library}
use shed.Library.Kinds.{asset_type_of, mime_of}
use shed.Library.Probe.{Floats, ProbedStream, add_streams, split_slash, probe_file, default_result}
use shed.Stingers.{as_i64}
use shed.Library.Assets.{list_assets, loose, delete_asset}
use shed.Library.Uploading.{Disk, Field, name_field, file_field, read_form, upload_asset}
use shed.Library.Folders.{delete_folder}
use shed.Library.Filing.{FolderDeleted, delete_folder-Deleted}
use shed.Library.Uploads.{Restored, upload-delete}

-- The asset 1 is in the folder 7.
abbrev clip : AssetRow
clip = record {
  id = 1;
  name = "clip";
  asset_type = "video";
  file_path = "library/1.mp4";
  file_size = 2;
  mime_type = "video/mp4";
  folder_id = some 7;
  loop_mode = "one_shot";
  duration_ms = pos 0;
  start_ms = pos 0;
  opaque_ms = pos 0;
  clear_ms = pos 0;
  end_ms = pos 0;
  audio_behaviour = "";
  thumbnail_path = "";
  metadata = "{}";
  created_at = "now";
}

abbrev library : Library
library = record {
  assets = clip ∷ [];
  folders =
      record { id = 7; name = "clips"; parent_id = none; color = "#6366f1"; created_at = "now" }
      ∷ record { id = 8; name = "old"; parent_id = some 7; color = "#6366f1"; created_at = "now" }
      ∷ [];
  files = "library/1.mp4" ∷ [];
}

-- Every number is 40.
abbrev floats : Floats
floats = record {
  parse_f64 = λ t. some 40;
  parse_u64 = λ t. none;
  parse_u32 = λ t. some 48000;
  to_ms = λ secs. secs;
  positive = λ den. ltb 0 den;
  div = λ num den. 1;
}

abbrev sound : ProbedStream
sound = record {
  codec_type = some "audio";
  width = none;
  height = none;
  codec_name = some "aac";
  r_frame_rate = some "0/0";
  sample_rate = some "48000";
}

abbrev tiny : ProbedStream
tiny = record {
  codec_type = some "video";
  width = some 320;
  height = some 180;
  codec_name = some "vp9";
  r_frame_rate = some "30/1";
  sample_rate = none;
}

probed_streams : add_streams floats (sound ∷ tiny ∷ []) default_result ≡ record {
  duration_ms = 0;
  width = some 320;
  height = some 180;
  codec = some "vp9";
  fps = some 1;
  audio_codec = some "aac";
  audio_sample_rate = some 48000;
  bitrate_kbps = none;
}
unfolding add_streams split_slash
probed_streams = refl

-- The new id is 2, and the directory `library`.
abbrev disk : Disk
disk = record {
  id = 2;
  id_text = "2";
  join = λ stored. concat ("library/" ∷ stored ∷ []);
  create_dir = none;
  create_file = λ path. none;
  write_all = λ bytes. none;
  floats = floats;
  probed = some (record { duration = some "40"; bit_rate = none; streams = sound ∷ tiny ∷ [] });
  print = λ probe. "{}";
  frames = record { first_made = false; size = none; second_there = false };
  thumb_join = λ stored. stored;
  now = "now";
  extension = λ filename. some "png";
  alphanumeric = λ c. ltb 96 c;
  folder_of = λ text. 7;
}

abbrev fields : List Field
fields = name_field (inr "logo") ∷ file_field (some "logo.png") none (inr (1 ∷ 2 ∷ 3 ∷ [])) ∷ []

stinger_by_extension : asset_type_of "mov" "image/png" ≡ "stinger"
unfolding asset_type_of
stinger_by_extension = refl

unknown_extension : mime_of "avi" "video/x-msvideo" ≡ "video/x-msvideo"
unfolding mime_of
unknown_extension = refl

moved_to_root :
    map (λ a. a.id) (list_assets (λ rows. rows) loose (delete_folder 7 library).1) ≡ 1 ∷ []
unfolding list_assets delete_folder
moved_to_root = refl

uploaded :
    map (λ a. a.mime_type) (upload_asset disk fields library).1.assets
    ≡ "video/mp4" ∷ "image/png" ∷ []
unfolding upload_asset read_form probe_file add_streams as_i64 asset_type_of mime_of
uploaded = refl

delete_folder-Deleted_example : FolderDeleted 7 (λ rows. rows) library (delete_folder 7 library)
delete_folder-Deleted_example = delete_folder-Deleted 7 (λ rows. rows) library

abbrev logo : AssetRow
logo = record clip {
  id = 2;
  name = "logo";
  asset_type = "image";
  file_path = "library/2.png";
  file_size = 3;
  mime_type = "image/png";
  folder_id = none;
  duration_ms = pos 40;
  audio_behaviour = "\"silent\"";
}

upload-delete_example :
    Restored library "library/2.png" (delete_asset true 2 (upload_asset disk fields library).1)
unfolding upload_asset read_form probe_file add_streams as_i64 asset_type_of mime_of
upload-delete_example = upload-delete disk fields library logo refl refl
