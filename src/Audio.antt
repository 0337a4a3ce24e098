-- ===== src/Audio.antt =====
-- crates/api/src/routes/audio.rs: the handlers of the audio routing. `stored` is the row
-- `audio_routing` of `settings`, as text that serde prints.
pub mod Follows
mod Examples
use shed.Prelude.{
  ◌==◌, if◌then◌else◌, is_none, or_else, ℕ, String, Bool, true, false, not, Option, none, some,
  List, [], ◌∷◌,
}
use shed.Prelude.Maps.{IdMap, lookup}
use shed.Types.{SourceState, AudioRouting, AudioChannelState}
use shed.Types.MuxshedError.{MuxshedError, bad_request}
use shed.Stream.{is_live}

-- The shared state that the handlers touch.
pub record Audio : Type 0 where
  pub audio_routing : AudioRouting
  pub source_states : IdMap SourceState
  pub stored : Option String

abbrev pub Print : Type 0
Print = AudioRouting → Option String

-- A text that serde does not make is not stored.
unfoldable pub persist_routing : Print → Audio → Audio
persist_routing to_string a = record a { stored = or_else (to_string a.audio_routing) a.stored }

unfoldable pub set_routing : Print → AudioRouting → Audio → Audio
set_routing to_string routing a = persist_routing to_string (record a { audio_routing = routing })

abbrev pub routed : Option ℕ → AudioRouting → AudioRouting
routed source_id r = record r {
  active_audio_source = source_id;
  audio_follows_video = is_none source_id;
}

unfoldable pub set_audio_source : Print → Option ℕ → Audio → Option MuxshedError × Audio
set_audio_source to_string none a = (none, set_routing to_string (routed none a.audio_routing) a)
set_audio_source to_string (some id) a =
    if is_live (lookup a.source_states id)
    then (none, set_routing to_string (routed (some id) a.audio_routing) a)
    else (some (bad_request "source is not live"), a)

unfoldable pub toggle : AudioRouting → AudioRouting
toggle r =
    let follows = not r.audio_follows_video in
    record r {
      audio_follows_video = follows;
      active_audio_source = if follows then none else r.active_audio_source;
    }

unfoldable pub toggle_follows_video : Print → Audio → Audio
toggle_follows_video to_string a = set_routing to_string (toggle a.audio_routing) a

-- The first channel of a source.
unfoldable pub set_muted : ℕ → Bool → List AudioChannelState → List AudioChannelState
set_muted id muted [] = []
set_muted id muted (channel ∷ channels) =
    let rest = set_muted id muted channels in
    if channel.source_id == id then record channel { muted = muted } ∷ channels else channel ∷ rest

abbrev pub muted_routing : ℕ → Bool → AudioRouting → AudioRouting
muted_routing id muted r = record r { channels = set_muted id muted r.channels }

unfoldable pub mute_source : Print → ℕ → Audio → Audio
mute_source to_string id a = set_routing to_string (muted_routing id true a.audio_routing) a

unfoldable pub unmute_source : Print → ℕ → Audio → Audio
unmute_source to_string id a = set_routing to_string (muted_routing id false a.audio_routing) a
