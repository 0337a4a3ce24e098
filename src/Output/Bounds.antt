-- ===== src/Output/Bounds.antt =====
-- The configurations that `set_config` lets through: crates/api/src/routes/output.rs.
use shed.Prelude.{◌+◌, ◌*◌, ◌≤◌, ◌<◌, String, ◌≡◌, ◌↔◌, Option, some, arith}
use mathlib.Core.Path.{subst}
use shed.Output.{OutputConfig, clamp_config, load_output_config}

-- What the encoder is asked for stays within the limits.
abbrev pub IsEncodable : OutputConfig → Type 0
IsEncodable c =
    ((160 ≤ c.width) × (c.width ≤ 3840))
    × ((120 ≤ c.height) × (c.height ≤ 2160))
    × ((1 ≤ c.fps) × (c.fps ≤ 60))
    × ((500 ≤ c.video_bitrate_kbps) × (c.video_bitrate_kbps ≤ 20000))
    × (32 ≤ c.audio_bitrate_kbps)
    × (c.audio_bitrate_kbps ≤ 320)

pub clamp_config-IsEncodable : (c : OutputConfig) → IsEncodable (clamp_config c)
unfolding clamp_config
clamp_config-IsEncodable c = ground arith

clamp_config_id : (c : OutputConfig) → IsEncodable c → clamp_config c ≡ c
unfolding clamp_config
clamp_config_id c h = ground arith

-- A configuration is saved as it is exactly when it is within the limits, saving it twice is saving
-- it once, and the products and the sum that the encoders take of a saved one fit 32 bits.
pub clamp_config_projects :
    (c : OutputConfig)
    → (clamp_config c ≡ c ↔ IsEncodable c)
      × (clamp_config (clamp_config c) ≡ clamp_config c)
      × ((clamp_config c).video_bitrate_kbps * 2 < 4294967296)
      × ((clamp_config c).fps * 2 < 4294967296)
      × ((clamp_config c).video_bitrate_kbps + (clamp_config c).audio_bitrate_kbps < 4294967296)
clamp_config_projects c =
    let h = clamp_config-IsEncodable c in
    (
      (λ e. subst IsEncodable e h, clamp_config_id c),
      clamp_config_id (clamp_config c) h,
      omega arith,
      omega arith,
      omega arith,
    )

-- After a save the encoders run within the limits, whatever was sent, and with what was sent if it
-- was within them, where the parser reads back what the printer wrote.
pub saved_config_is_loaded :
    (to_string : OutputConfig → String) (from_str : String → Option OutputConfig) (c : OutputConfig)
    → from_str (to_string (clamp_config c)) ≡ some (clamp_config c)
    → IsEncodable (load_output_config from_str (some (to_string (clamp_config c))))
      × (IsEncodable c → load_output_config from_str (some (to_string (clamp_config c))) ≡ c)
unfolding load_output_config
saved_config_is_loaded to_string from_str c reads =
    rw reads (clamp_config-IsEncodable c, clamp_config_id c)
