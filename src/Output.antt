-- ===== src/Output.antt =====
-- crates/api/src/routes/output.rs: the encoder's configuration, and how the parts that run ffmpeg
-- read it back from the `settings` table. `set_config` as a whole is in `Stream`.
pub mod Bounds
mod Examples
use shed.Prelude.{ltb, if◌then◌else◌, unwrap_or, ℕ, String, Option, ◌>>=◌}

pub record OutputConfig : Type 0 where
  pub video_bitrate_kbps : ℕ
  pub audio_bitrate_kbps : ℕ
  pub width : ℕ
  pub height : ℕ
  pub fps : ℕ

abbrev pub default_output_config : OutputConfig
default_output_config = record {
  video_bitrate_kbps = 4500;
  audio_bitrate_kbps = 160;
  width = 1920;
  height = 1080;
  fps = 30;
}

-- `u32::clamp`.
abbrev pub clamp : ℕ → ℕ → ℕ → ℕ
clamp low high n = if ltb n low then low else if ltb high n then high else n

-- The first statements of `set_config`.
unfoldable pub clamp_config : OutputConfig → OutputConfig
clamp_config config = record {
  video_bitrate_kbps = clamp 500 20000 config.video_bitrate_kbps;
  audio_bitrate_kbps = clamp 32 320 config.audio_bitrate_kbps;
  width = clamp 160 3840 config.width;
  height = clamp 120 2160 config.height;
  fps = clamp 1 60 config.fps;
}

-- `get_config`, and `load_output_config` of the parts: the stored text, and serde's parser.
unfoldable pub load_output_config : (String → Option OutputConfig) → Option String → OutputConfig
load_output_config from_str row = unwrap_or (row >>= from_str) default_output_config

-- `load_output_config` of routes/stream.rs: no default here.
unfoldable pub saved_output_config :
    (String → Option OutputConfig) → Option String → Option OutputConfig
saved_output_config from_str row = row >>= from_str
