-- ===== src/Audio/Follows.antt =====
-- Which source the audio comes from: crates/api/src/routes/audio.rs.
use shed.Prelude.{
  Option-cases, is_some, ℕ, ◌≡◌, refl, inl, inr, true, false, Option, none, some, List, [], ◌∷◌,
  arith, if_cases,
}
use shed.Types.{AudioRouting}
use shed.Prelude.Maps.{lookup}
use shed.Types.MuxshedError.{MuxshedError, bad_request}
use shed.Stream.{is_live}
use shed.Audio.{
  muted_routing, Audio, Print, persist_routing, set_routing, routed, set_audio_source, toggle,
  toggle_follows_video, mute_source, unmute_source,
}

-- While the audio follows the video, no source is chosen for it.
abbrev pub Follows : AudioRouting → Type 0
Follows r = r.audio_follows_video ≡ true → r.active_audio_source ≡ none

-- What is stored is what is in force, where serde prints every routing.
abbrev pub IsStored : Print → Audio → Type 0
IsStored to_string a = a.stored ≡ to_string a.audio_routing

pub data Op : Type 0 where
  op_source : (source_id : Option ℕ) → Op
  op_toggle : Op
  op_mute op_unmute : (id : ℕ) → Op

unfoldable pub step : Print → Op → Audio → Audio
step to_string (op_source source_id) a = (set_audio_source to_string source_id a).1
step to_string op_toggle a = toggle_follows_video to_string a
step to_string (op_mute id) a = mute_source to_string id a
step to_string (op_unmute id) a = unmute_source to_string id a

unfoldable pub run : Print → List Op → Audio → Audio
run to_string [] a = a
run to_string (op ∷ history) a = run to_string history (step to_string op a)

routed-Follows : (source_id : Option ℕ) (r : AudioRouting) → Follows (routed source_id r)
routed-Follows none r h = refl
routed-Follows (some id) r h = absurd (ground (arith, h))

toggle-Follows : (r : AudioRouting) → Follows (toggle r)
unfolding toggle
toggle-Follows r h = ground (arith, h)

step-Follows :
    (to_string : Print) (op : Op) (a : Audio)
    → Follows a.audio_routing
    → Follows (step to_string op a).audio_routing
unfolding step set_audio_source set_routing persist_routing toggle_follows_video mute_source
    unmute_source
step-Follows to_string (op_source none) a follows = routed-Follows none a.audio_routing
step-Follows to_string (op_source (some id)) a follows =
    if_cases (λ (r : Option MuxshedError × Audio). Follows r.1.audio_routing)
      (is_live (lookup a.source_states id))
      (none, set_routing to_string (routed (some id) a.audio_routing) a)
      (some (bad_request "source is not live"), a) (λ e. routed-Follows (some id) a.audio_routing)
      (λ e. follows)
step-Follows to_string op_toggle a follows = toggle-Follows a.audio_routing
step-Follows to_string (op_mute id) a follows = follows
step-Follows to_string (op_unmute id) a follows = follows

set_routing-IsStored :
    (to_string : Print) (r : AudioRouting) (a : Audio)
    → is_some (to_string r) ≡ true
    → IsStored to_string (set_routing to_string r a)
unfolding set_routing persist_routing
set_routing-IsStored to_string r a printed = elim (Option-cases (to_string r)) [
  | inl e ↦ absurd (ground (arith, printed, e))
  | inr (text, e) ↦ rw e refl
]

step-IsStored :
    (to_string : Print) (op : Op) (a : Audio)
    → ((r : AudioRouting) → is_some (to_string r) ≡ true)
    → IsStored to_string a
    → IsStored to_string (step to_string op a)
unfolding step set_audio_source toggle_follows_video mute_source unmute_source
step-IsStored to_string (op_source none) a prints stored =
    let r = routed none a.audio_routing in set_routing-IsStored to_string r a (prints r)
step-IsStored to_string (op_source (some id)) a prints stored =
    let r = routed (some id) a.audio_routing in
    if_cases (λ (s : Option MuxshedError × Audio). IsStored to_string s.1)
      (is_live (lookup a.source_states id)) (none, set_routing to_string r a)
      (some (bad_request "source is not live"), a)
      (λ e. set_routing-IsStored to_string r a (prints r)) (λ e. stored)
step-IsStored to_string op_toggle a prints stored =
    let r = toggle a.audio_routing in set_routing-IsStored to_string r a (prints r)
step-IsStored to_string (op_mute id) a prints stored =
    let r = muted_routing id true a.audio_routing in set_routing-IsStored to_string r a (prints r)
step-IsStored to_string (op_unmute id) a prints stored =
    let r = muted_routing id false a.audio_routing in set_routing-IsStored to_string r a (prints r)

-- After any history of requests for single changes the audio has no source of its own while it
-- follows the video, and what is stored is what is in force. Every routing can be printed.
pub run-Follows :
    (to_string : Print) (history : List Op) (a : Audio)
    → ((r : AudioRouting) → is_some (to_string r) ≡ true)
    → Follows a.audio_routing
    → IsStored to_string a
    → Follows (run to_string history a).audio_routing × IsStored to_string (run to_string history a)
unfolding run
run-Follows to_string [] a prints follows stored = (follows, stored)
run-Follows to_string (op ∷ history) a prints follows stored =
    run-Follows to_string history (step to_string op a) prints (step-Follows to_string op a follows)
      (step-IsStored to_string op a prints stored)
