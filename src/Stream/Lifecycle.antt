-- ===== src/Stream/Lifecycle.antt =====
-- What ends, what comes back and what is applied while live: crates/api/src/routes/stream.rs and
-- crates/api/src/routes/output.rs.
use shed.Prelude.{
  if◌then◌else◌, Option-cases, ℕ, String, ◌≡◌, refl, ap, inl, inr, ◌∙◌, true, false, none, some,
  List, [], arith,
}
use shed.Prelude.Maps.{lookup}
use shed.Types.{Destination}
use shed.Output.{OutputConfig, clamp_config}
use shed.Egress.{RestartParams, egress_restart_for, set_output_config, is_running}
use shed.Egress as Egress
use shed.Egress.Served.{Spawns, served, egress_restart_for_primes}
use shed.Pipeline as Pipeline
use shed.Pipeline.{Pipeline}
use shed.Stream.{
  BroadcastConfig, World, Studio, is_idle, broadcasting, ensure_channel_hls, go_on_air, stop,
  set_output,
}

-- The scene of the saved broadcast configuration makes no difference to going live: it is activated
-- while the pipeline is still starting, which drops it.
pub saved_scene_is_dropped :
    (w : World) (source_id : ℕ) (saved : BroadcastConfig) (destinations : List Destination)
    (s : Studio)
    → go_on_air w source_id saved destinations s
      ≡ go_on_air w source_id (record saved { scene_id = none }) destinations s
unfolding go_on_air ensure_channel_hls Pipeline.start Pipeline.activate_scene
saved_scene_is_dropped w source_id saved destinations s = elim (Option-cases saved.scene_id) [
  | inl e ↦ rw (go_on_air, e) refl
  | inr (scene_id, e) ↦ rw (go_on_air, e) refl
]

-- After a stop nothing is sent and nothing comes back by itself: no egress, no watch page, no
-- program, no recording, the watch page and the egress stay off when their configuration changes or a
-- switch of the program asks for a restart.
pub stop_ends_output :
    (w : World) (to_string : OutputConfig → String) (config : OutputConfig) (source : ℕ)
    (s : Studio)
    → is_idle s.pipeline.state ≡ false
    → let s' = (stop s).1 in
      (s'.egress.processes ≡ [])
      × (s'.channel_hls ≡ none)
      × (s'.program_intent ≡ none)
      × (s'.pipeline.recording.recording ≡ false)
      × ((ensure_channel_hls w s').channel_hls ≡ none)
      × (egress_restart_for w.spawn w.now s'.sequence_headers source s'.egress ≡ s'.egress)
      × ((set_output w to_string config s').egress ≡ s'.egress)
      × ((set_output w to_string config s').channel_hls ≡ none)
unfolding stop ensure_channel_hls egress_restart_for set_output Egress.stop is_running Pipeline.stop
    Pipeline.stop_recording
stop_ends_output w to_string config source s on = ground arith

-- A change of the output configuration while on air reaches the destinations at once: exactly those
-- of the last start are fed, each with the configuration within its limits and the headers of the
-- source on the program, where ffmpeg starts.
pub set_output_applies :
    (w : World) (to_string : OutputConfig → String) (config : OutputConfig) (params : RestartParams)
    (source : ℕ) (s : Studio)
    → broadcasting s.pipeline.state ≡ true
    → s.program_source ≡ some source
    → is_running s.egress ≡ true
    → s.egress.restart_params ≡ some params
    → Spawns w.spawn
    → (id : ℕ)
    → lookup (set_output w to_string config s).egress.processes id
      ≡ served
          (some (clamp_config config))
          (lookup s.sequence_headers source)
          params.destinations
          id
unfolding set_output ensure_channel_hls is_running set_output_config
set_output_applies w to_string config params source s on program up last spawns id =
    let cfg = some (clamp_config config) in
    let kept : set_output_config cfg s.egress
        ≡ record s.egress { restart_params = some (record params { output_config = cfg }) } =
      rw (set_output_config, last) refl in
    rw (set_output, on, program)
      (egress_restart_for_primes w.spawn w.now (record params { output_config = cfg })
          s.sequence_headers source (set_output_config cfg s.egress) spawns
          (ap (λ m. m.restart_params) kept) id
        ∙ ap
            (λ b.
              if b
              then served cfg (lookup s.sequence_headers source) params.destinations id
              else none)
            (ap is_running kept ∙ up))
