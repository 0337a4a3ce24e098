-- ===== src/Sources/Listeners.antt =====
-- The command line of an SRT listener: crates/api/src/srt.rs, `start_srt_listener`.
use shed.Prelude.{
  if◌then◌else◌, ℕ, ◌*◌, String, Option, none, some, List, [], ◌∷◌, ◌++◌, concat, decimal,
  string_eq,
}
use shed.Output.{OutputConfig}
use shed.Rtmp.{kbps}

unfoldable pub srt_url : ℕ → Option String → String
srt_url port none = concat ("srt://0.0.0.0:" ∷ decimal port ∷ "?mode=listener" ∷ [])
srt_url port (some pw) =
    if string_eq pw ""
    then concat ("srt://0.0.0.0:" ∷ decimal port ∷ "?mode=listener" ∷ [])
    else concat ("srt://0.0.0.0:" ∷ decimal port ∷ "?mode=listener" ∷ "&passphrase=" ∷ pw ∷ [])

unfoldable pub srt_args : ℕ → Option String → OutputConfig → List String
srt_args port passphrase cfg =
    let size = concat (decimal cfg.width ∷ ":" ∷ decimal cfg.height ∷ []) in
    ("-hide_banner" ∷ "-loglevel" ∷ "warning" ∷ "-i" ∷ srt_url port passphrase ∷ [])
    ++ ("-vf"
        ∷ concat (
            "scale=" ∷ size ∷ ":force_original_aspect_ratio=decrease,pad=" ∷ size
            ∷ ":(ow-iw)/2:(oh-ih)/2:black" ∷ [])
        ∷ [])
    ++ ("-c:v" ∷ "libx264" ∷ "-preset" ∷ "veryfast" ∷ "-tune" ∷ "zerolatency" ∷ [])
    ++ ("-b:v" ∷ kbps cfg.video_bitrate_kbps ∷ "-maxrate" ∷ kbps cfg.video_bitrate_kbps ∷ [])
    ++ ("-bufsize" ∷ kbps (cfg.video_bitrate_kbps * 2) ∷ "-g" ∷ decimal (cfg.fps * 2) ∷ [])
    ++ ("-r" ∷ decimal cfg.fps ∷ "-pix_fmt" ∷ "yuv420p" ∷ "-c:a" ∷ "aac" ∷ [])
    ++ ("-b:a" ∷ kbps cfg.audio_bitrate_kbps ∷ "-ar" ∷ "48000" ∷ [])
    ++ ("-f" ∷ "flv" ∷ "-flvflags" ∷ "no_duration_filesize" ∷ "pipe:1" ∷ [])
