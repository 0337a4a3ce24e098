-- ===== src/Ingest.antt =====
-- How a subprocess's output becomes a source: the tag loop of crates/api/src/srt.rs over the bytes
-- that ffmpeg writes, the cache of the headers that late readers need, the relay, and the listener's
-- ports. The other readers (webrtc_ingest.rs, media_player.rs, source_normalizer.rs and
-- scene_compositor.rs) cache in the same way.
pub mod Cache
pub mod Relay
pub mod Ports
mod Examples
use shed.Prelude.{
  ltb, ◌==◌, if◌then◌else◌, unwrap_or, length, get_or, any, ℕ, zero, suc, ◌+◌, ◌-◌, ◌/◌, ◌%◌, ◌&&◌,
  Option, none, some, List, [], ◌∷◌, ◌++◌, map,
}
use shed.Prelude.Maps.{IdMap, lookup, insert, remove}
use shed.Types.{SequenceHeaders, no_headers, SourceState, live, WsEvent, source_state}
use shed.Flv.Demux.{Tag, read_stream}

-- `relayed` is what was sent to the source's relay, newest first; a listener is a process's number.
pub record Ingest : Type 0 where
  pub sequence_headers : IdMap SequenceHeaders
  pub source_states : IdMap SourceState
  pub ws : List WsEvent
  pub relayed : List (List ℕ)
  pub media_relays : IdMap ℕ
  pub srt_listeners : IdMap ℕ

-- `data[1]`, or 255.
abbrev pub packet_type : List ℕ → ℕ
packet_type bytes = get_or bytes 1 255

abbrev pub frame_type : List ℕ → ℕ
frame_type bytes = get_or bytes 0 0 / 16 % 16

-- `entry(id).or_default()`.
abbrev pub entry : IdMap SequenceHeaders → ℕ → SequenceHeaders
entry headers source_id = unwrap_or (lookup headers source_id) no_headers

-- A keyframe is kept only beside a header.
unfoldable pub keep_keyframe : ℕ → List ℕ → IdMap SequenceHeaders → IdMap SequenceHeaders
keep_keyframe source_id raw headers = elim (lookup headers source_id) [
  | none ↦ headers
  | some seq ↦ insert headers source_id (record seq { last_keyframe = some raw })
]

unfoldable pub cache_tag : ℕ → Tag → IdMap SequenceHeaders → IdMap SequenceHeaders
cache_tag source_id tag headers =
    let some_bytes = ltb 0 (length tag.body) in
    let seq = entry headers source_id in
    if tag.tag_type == 9 && some_bytes
    then if packet_type tag.body == 0
      then insert headers source_id (record seq { video = some tag.raw })
      else if frame_type tag.body == 1
      then keep_keyframe source_id tag.raw headers
      else headers
    else if (tag.tag_type == 8 && some_bytes) && (packet_type tag.body == 0)
    then insert headers source_id (record seq { audio = some tag.raw })
    else headers

-- A new state of a source, announced.
abbrev pub set_source_state : ℕ → SourceState → Ingest → Ingest
set_source_state source_id state s = record s {
  source_states = insert s.source_states source_id state;
  ws = source_state source_id state ∷ s.ws;
}

-- One turn of the loop, after the tag is read.
unfoldable pub publish : ℕ → ℕ → Tag → Ingest → Ingest
publish source_id frame_count tag s =
    let cached = record s { sequence_headers = cache_tag source_id tag s.sequence_headers } in
    let shown = if frame_count == 0 then set_source_state source_id live cached else cached in
    record shown { relayed = tag.raw ∷ shown.relayed }

unfoldable pub publish_all : ℕ → ℕ → List Tag → Ingest → Ingest
publish_all source_id frame_count [] s = s
publish_all source_id frame_count (tag ∷ tags) s =
    publish_all source_id (suc frame_count) tags (publish source_id frame_count tag s)

unfoldable pub read_flv_output : ℕ → List ℕ → Ingest → Ingest
read_flv_output source_id stdout s = publish_all source_id 0 (read_stream stdout) s

unfoldable pub stop_srt_listener : ℕ → Ingest → Ingest
stop_srt_listener source_id s = record s {
  srt_listeners = remove s.srt_listeners source_id;
  media_relays = remove s.media_relays source_id;
  sequence_headers = remove s.sequence_headers source_id;
}

-- `for p in start..end`, on the number of ports left.
unfoldable pub first_free : List ℕ → ℕ → ℕ → Option ℕ
first_free used p zero = none
first_free used p (suc left) =
    let rest = first_free used (suc p) left in if any (λ q. q == p) used then rest else some p

abbrev pub wrap_u16 : ℕ → ℕ
wrap_u16 n = n % 65536

-- `assign_srt_port`: `ports` are those of the SRT sources in the database, and every listener adds
-- port 0. The sum is a `u16`.
unfoldable pub assign_srt_port : ℕ → IdMap ℕ → List ℕ → ℕ
assign_srt_port start listeners ports =
    let used = map (λ l. 0) listeners ++ ports in
    let end = wrap_u16 (start + 100) in unwrap_or (first_free used start (end - start)) end
