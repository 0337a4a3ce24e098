-- ===== src/Audio/Examples.antt =====
-- Tests and instances for the audio routing.
use shed.Prelude.{if◌then◌else◌, ◌≡◌, refl, true, false, none, some, List, [], ◌∷◌}
use shed.Prelude.Maps.{lookup}
use shed.Types.{live, AudioRouting}
use shed.Audio.{
  Audio, Print, set_audio_source, toggle_follows_video, set_routing, persist_routing, toggle,
  set_muted, mute_source,
}
use shed.Audio.Follows.{
  Follows, IsStored, Op, op_source, op_toggle, op_mute, step, run, run-Follows,
}

abbrev print : Print
print = λ r. some (if r.audio_follows_video then "follows" else "chosen")

abbrev following : AudioRouting
following = record {
  active_audio_source = none;
  channels = record { source_id = 4; muted = false; volume = 0 } ∷ [];
  audio_follows_video = true;
}

abbrev audio : Audio
audio = record {
  audio_routing = following;
  source_states = (4, live) ∷ [];
  stored = some "follows";
}

abbrev history : List Op
history = op_source (some 4) ∷ op_mute 4 ∷ op_toggle ∷ []

history_runs : run print history audio ≡ record audio {
  audio_routing = record following {
    channels = record { source_id = 4; muted = true; volume = 0 } ∷ [];
  };
}
unfolding run step set_audio_source set_routing persist_routing toggle_follows_video toggle
    set_muted mute_source lookup
history_runs = refl

run-Follows_example :
    Follows (run print history audio).audio_routing × IsStored print (run print history audio)
run-Follows_example = run-Follows print history audio (λ r. refl) (λ h. refl) refl
