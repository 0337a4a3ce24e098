-- ===== src/Media.antt =====
-- crates/api/src/media_player.rs and source_normalizer.rs: the ffmpeg processes that play files and
-- normalize RTMP input, and the readers of their output, with the reader of
-- crates/api/src/scene_compositor.rs. `Launch` is the operating system: a command line gives an error's text or
-- the process, with its pipes. `killed` are the processes killed so far, newest first: a child that is dropped
-- is killed (`kill_on_drop`). A file's extension is the standard library's, and an argument.
pub mod Caches
pub mod Readers
pub mod Children
mod Examples
use shed.Prelude.{
  leb, ◌==◌, if◌then◌else◌, length, ℕ, suc, ◌*◌, String, ◌⊎◌, inl, inr, Bool, true, false, not,
  ◌&&◌, ◌||◌, Option, none, some, List, [], ◌∷◌, ◌++◌, any, map, option_list, concat, decimal,
  string_eq,
}
use shed.Prelude.Maps.{IdMap, lookup, insert, remove}
use shed.Types.{
  SourceState, live, SourceKind, rtmp, srt, web_rtc, test_pattern, media_file, browser,
}
use shed.Flv.Demux.{Tag, read_stream}
use shed.Media.Caches.{cache_played, cache_normalized, cache_composited}
use shed.Ingest.{Ingest}
use shed.WebRtc.{with_relay}
use shed.Output.{OutputConfig}

abbrev pub Launch : Type 0
Launch = List String → String ⊎ ℕ

-- The maps of the shared state that hold ffmpeg processes, with the ingest's.
pub record Media : Type 0 where
  pub ingest : Ingest
  pub media_players : IdMap ℕ
  pub source_normalizers : IdMap ℕ
  pub scene_compositors : IdMap ℕ
  pub killed : List ℕ

-- A turn of the loop of `feed_relay`: nothing is announced.
unfoldable pub feed_tag : ℕ → Tag → Ingest → Ingest
feed_tag source_id tag s = record s {
  sequence_headers = cache_played source_id tag s.sequence_headers;
  relayed = tag.raw ∷ s.relayed;
}

unfoldable pub feed_tags : ℕ → List Tag → Ingest → Ingest
feed_tags source_id [] s = s
feed_tags source_id (tag ∷ tags) s = feed_tags source_id tags (feed_tag source_id tag s)

-- A turn of the loop of `read_normalized_output`.
unfoldable pub normalized_tag : ℕ → Tag → Ingest → Ingest
normalized_tag source_id tag s = record s {
  sequence_headers = cache_normalized source_id tag s.sequence_headers;
  relayed = tag.raw ∷ s.relayed;
}

unfoldable pub normalized_tags : ℕ → List Tag → Ingest → Ingest
normalized_tags source_id [] s = s
normalized_tags source_id (tag ∷ tags) s =
    normalized_tags source_id tags (normalized_tag source_id tag s)

-- A turn of `read_composited_output`: the scene's state is stored, and not announced.
unfoldable pub composited_tag : ℕ → ℕ → Tag → Ingest → Ingest
composited_tag scene_id frame_count tag s =
    let cached = record s { sequence_headers = cache_composited scene_id tag s.sequence_headers } in
    let shown =
      if frame_count == 0
      then record cached { source_states = insert s.source_states scene_id live }
      else cached in
    record shown { relayed = tag.raw ∷ shown.relayed }

unfoldable pub composited_tags : ℕ → ℕ → List Tag → Ingest → Ingest
composited_tags scene_id frame_count [] s = s
composited_tags scene_id frame_count (tag ∷ tags) s =
    composited_tags scene_id (suc frame_count) tags (composited_tag scene_id frame_count tag s)

-- The FLV header is there.
abbrev pub has_header : List ℕ → Bool
has_header stdout = leb 13 (length stdout)

-- The process under a key is removed and killed.
unfoldable pub drop_player : ℕ → Media → Media
drop_player source_id s = record s {
  media_players = remove s.media_players source_id;
  killed = option_list (lookup s.media_players source_id) ++ s.killed;
}

unfoldable pub stop_normalizer : ℕ → Media → Media
stop_normalizer source_id s = record s {
  source_normalizers = remove s.source_normalizers source_id;
  killed = option_list (lookup s.source_normalizers source_id) ++ s.killed;
}

unfoldable pub drop_compositor : ℕ → Media → Media
drop_compositor scene_id s = record s {
  scene_compositors = remove s.scene_compositors scene_id;
  killed = option_list (lookup s.scene_compositors scene_id) ++ s.killed;
}

-- The readers, over all that a process writes. Without a header the entry stays.
unfoldable pub feed_relay : ℕ → List ℕ → Media → Media
feed_relay source_id stdout s =
    if has_header stdout
    then drop_player source_id
        (record s { ingest = feed_tags source_id (read_stream stdout) s.ingest })
    else s

unfoldable pub read_normalized_output : ℕ → List ℕ → Media → Media
read_normalized_output source_id stdout s =
    if has_header stdout
    then stop_normalizer source_id
        (record s { ingest = normalized_tags source_id (read_stream stdout) s.ingest })
    else s

unfoldable pub read_composited_output : ℕ → List ℕ → Media → Media
read_composited_output scene_id stdout s =
    if has_header stdout
    then drop_compositor scene_id
        (record s { ingest = composited_tags scene_id 0 (read_stream stdout) s.ingest })
    else s

abbrev image_extensions : List String
image_extensions = "png" ∷ "jpg" ∷ "jpeg" ∷ "gif" ∷ "webp" ∷ "bmp" ∷ "svg" ∷ []

-- The extension, or the empty text.
unfoldable pub is_image : String → Bool
is_image extension = any (λ e. string_eq e extension) image_extensions

unfoldable pub media_args : Bool → String → String → List String
media_args image file_path loop_mode =
    ("-hide_banner" ∷ "-loglevel" ∷ "warning" ∷ [])
    ++ (if (image || string_eq loop_mode "loop") && not image
        then "-stream_loop" ∷ "-1" ∷ []
        else [])
    ++ (if image then "-loop" ∷ "1" ∷ "-framerate" ∷ "30" ∷ [] else [])
    ++ ("-re" ∷ "-i" ∷ file_path ∷ [])
    ++ ("-c:v" ∷ "libx264" ∷ "-preset" ∷ "veryfast" ∷ "-tune" ∷ "zerolatency" ∷ [])
    ++ ("-pix_fmt" ∷ "yuv420p" ∷ "-g" ∷ "60" ∷ "-r" ∷ "30" ∷ "-b:v" ∷ "2000k" ∷ [])
    ++ (if image
        then "-t" ∷ "86400" ∷ "-an" ∷ []
        else "-c:a" ∷ "aac" ∷ "-b:a" ∷ "128k" ∷ "-ar" ∷ "48000" ∷ "-ac" ∷ "2" ∷ [])
    ++ ("-f" ∷ "flv" ∷ "pipe:1" ∷ [])

-- A new process in the players, after the one it replaces is killed.
unfoldable pub install_player : ℕ → ℕ → Media → Media
install_player source_id pid s =
    let freed = drop_player source_id s in
    record freed { media_players = insert freed.media_players source_id pid }

unfoldable pub launch_player : Launch → List String → ℕ → Media → Option String × Media
launch_player launch args source_id s = elim (launch args) [
  | inl e ↦ (some (concat ("failed to start ffmpeg: " ∷ e ∷ [])), s)
  | inr pid ↦ (none, install_player source_id pid s)
]

-- `relay` is a new relay's number. The result is the error, none for `Ok(())`.
unfoldable pub start_media_playback :
    Launch → ℕ → ℕ → String → String → String → Media → Option String × Media
start_media_playback launch relay source_id extension file_path loop_mode s =
    launch_player launch (media_args (is_image extension) file_path loop_mode) source_id
      (record s { ingest = with_relay source_id relay s.ingest })

-- Here `list_path` is the list's path and `size` the canvas.
unfoldable pub concat_args : String → Bool → OutputConfig → List String
concat_args list_path loop_forever cfg =
    let size = concat (decimal cfg.width ∷ ":" ∷ decimal cfg.height ∷ []) in
    ("-hide_banner" ∷ "-loglevel" ∷ "warning" ∷ [])
    ++ (if loop_forever then "-stream_loop" ∷ "-1" ∷ [] else [])
    ++ ("-re" ∷ "-f" ∷ "concat" ∷ "-safe" ∷ "0" ∷ "-i" ∷ list_path ∷ [])
    ++ ("-vf"
        ∷ concat (
            "scale=" ∷ size ∷ ":force_original_aspect_ratio=decrease,pad=" ∷ size
            ∷ ":(ow-iw)/2:(oh-ih)/2:black,setsar=1" ∷ [])
        ∷ [])
    ++ ("-c:v" ∷ "libx264" ∷ "-preset" ∷ "veryfast" ∷ "-tune" ∷ "zerolatency" ∷ [])
    ++ ("-pix_fmt" ∷ "yuv420p" ∷ "-g" ∷ decimal (cfg.fps * 2) ∷ "-r" ∷ decimal cfg.fps ∷ [])
    ++ ("-b:v" ∷ "3000k" ∷ "-c:a" ∷ "aac" ∷ "-b:a" ∷ "128k" ∷ "-ar" ∷ "48000" ∷ "-ac" ∷ "2" ∷ [])
    ++ ("-f" ∷ "flv" ∷ "pipe:1" ∷ [])

-- `list_error` is the error of the write of the list.
unfoldable pub start_concat_playback :
    Launch
    → ℕ
    → ℕ
    → List String
    → Option String
    → String
    → Bool
    → OutputConfig
    → Media
    → Option String × Media
start_concat_playback launch relay source_id [] list_error list_path loop_forever cfg s =
    (some "empty playlist", s)
start_concat_playback launch relay source_id (f ∷ files) list_error list_path loop_forever cfg s =
    let related = record s { ingest = with_relay source_id relay s.ingest } in
    elim list_error [
      | some e ↦ (some (concat ("write playlist: " ∷ e ∷ [])), related)
      | none ↦ launch_player launch (concat_args list_path loop_forever cfg) source_id related
    ]

-- The relay and the headers of a source are dropped.
unfoldable pub forget_relay : ℕ → Ingest → Ingest
forget_relay source_id s = record s {
  media_relays = remove s.media_relays source_id;
  sequence_headers = remove s.sequence_headers source_id;
}

unfoldable pub stop_media_playback : ℕ → Media → Media
stop_media_playback source_id s =
    let freed = drop_player source_id s in
    record freed { ingest = forget_relay source_id freed.ingest }

-- `create_from_asset` of routes/sources.rs, for an asset that has a source.
unfoldable pub ensure_playing : Launch → ℕ → ℕ → String → String → String → Media → Media
ensure_playing launch relay source_id extension file_path loop_mode s =
    elim (lookup s.media_players source_id) [
      | some pid ↦ s
      | none ↦ (start_media_playback launch relay source_id extension file_path loop_mode s).1
    ]

-- `ensure_fallback_running` of failover.rs; `kind` is the fallback's row, as serde reads it.
unfoldable pub ensure_fallback_running : Launch → ℕ → ℕ → Option SourceKind → String → Media → Media
ensure_fallback_running launch relay fallback kind extension s =
    elim (lookup s.ingest.media_relays fallback) [
      | some r ↦ s
      | none ↦ elim kind [
        | some (media_file asset_id file_path loop_mode) ↦
            (start_media_playback launch relay fallback extension file_path loop_mode s).1
        | some (rtmp stream_key) ↦ s
        | some (srt port passphrase) ↦ s
        | some (web_rtc token) ↦ s
        | some test_pattern ↦ s
        | some (browser url) ↦ s
        | none ↦ s
      ]
    ]
