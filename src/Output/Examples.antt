-- ===== src/Output/Examples.antt =====
-- Tests and instances for the encoder's configuration.
use shed.Prelude.{◌≡◌, refl}
use shed.Output.{OutputConfig, clamp_config}

-- Off every limit.
abbrev wild : OutputConfig
wild = record {
  video_bitrate_kbps = 4294967295;
  audio_bitrate_kbps = 0;
  width = 0;
  height = 9999;
  fps = 61;
}

wild_clamped : clamp_config wild ≡ record {
  video_bitrate_kbps = 20000;
  audio_bitrate_kbps = 32;
  width = 160;
  height = 2160;
  fps = 60;
}
unfolding clamp_config
wild_clamped = refl
