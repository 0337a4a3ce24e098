-- ===== src/Rtmp.antt =====
-- crates/api/src/rtmp/server.rs, the publishing of a source over RTMP, with `start_normalizer` of
-- crates/api/src/source_normalizer.rs. The protocol is the rml_rtmp crate's, which raises the events; `by_key` is the
-- query for a stream key, which gives the row's id, none if it is no number. What a session sends goes to the
-- input of a normalizer, or to the relay if there is none.
pub mod Sessions
mod Examples
use shed.Prelude.{
  if◌then◌else◌, unwrap_or, ℕ, ◌*◌, String, inl, inr, Bool, true, false, Option, none, some, List,
  [], ◌∷◌, ◌++◌, concat, decimal,
}
use shed.Prelude.Maps.{IdMap, lookup, insert}
use shed.Types.{live, disconnected}
use shed.Output.{OutputConfig}
use shed.Flv as Flv
use shed.Ingest.{Ingest, set_source_state}
use shed.WebRtc.{with_relay}
use shed.Media.{Launch, Media, stop_normalizer, forget_relay}

abbrev pub kbps : ℕ → String
kbps n = concat (decimal n ∷ "k" ∷ [])

unfoldable pub normalizer_args : OutputConfig → List String
normalizer_args cfg =
    let size = concat (decimal cfg.width ∷ ":" ∷ decimal cfg.height ∷ []) in
    ("-hide_banner" ∷ "-loglevel" ∷ "warning" ∷ "-f" ∷ "flv" ∷ "-i" ∷ "pipe:0" ∷ [])
    ++ ("-vf"
        ∷ concat (
            "scale=" ∷ size ∷ ":force_original_aspect_ratio=decrease,pad=" ∷ size
            ∷ ":(ow-iw)/2:(oh-ih)/2:black" ∷ [])
        ∷ [])
    ++ ("-c:v" ∷ "libx264" ∷ "-preset" ∷ "veryfast" ∷ "-tune" ∷ "zerolatency" ∷ [])
    ++ ("-b:v" ∷ kbps cfg.video_bitrate_kbps ∷ "-maxrate" ∷ kbps cfg.video_bitrate_kbps ∷ [])
    ++ ("-bufsize" ∷ kbps (cfg.video_bitrate_kbps * 2) ∷ "-g" ∷ decimal (cfg.fps * 2) ∷ [])
    ++ ("-r" ∷ decimal cfg.fps ∷ "-pix_fmt" ∷ "yuv420p" ∷ "-c:a" ∷ "aac" ∷ [])
    ++ ("-b:a" ∷ kbps cfg.audio_bitrate_kbps ∷ "-ar" ∷ "48000" ∷ "-f" ∷ "flv" ∷ [])
    ++ ("-flvflags" ∷ "no_duration_filesize" ∷ "pipe:1" ∷ [])

unfoldable pub install_normalizer : ℕ → ℕ → Media → Media
install_normalizer source_id pid m =
    let freed = stop_normalizer source_id m in
    record freed { source_normalizers = insert freed.source_normalizers source_id pid }

-- Where a session's tags go: the input of a process, or a relay.
pub data MediaTx : Type 0 where
  raw : (pid : ℕ) → MediaTx
  direct : (relay : ℕ) → MediaTx

-- A task of the server, for one connection; `is_open` until it ends.
pub record Session : Type 0 where
  pub active_stream_key : Option String
  pub source_id : Option ℕ
  pub media_tx : Option MediaTx
  pub is_open : Bool

abbrev pub new_session : Session
new_session = record { active_stream_key = none; source_id = none; media_tx = none; is_open = true }

abbrev pub end_task : Session → Session
end_task session = record session { is_open = false }

-- `sent` is newest first.
pub record Server : Type 0 where
  pub media : Media
  pub sent : List (MediaTx × List ℕ)

pub record Backend : Type 0 where
  pub launch : Launch
  pub config : OutputConfig
  pub by_key : String → Option (Option ℕ)

abbrev relay_of : Media → ℕ → ℕ
relay_of m source_id = unwrap_or (lookup m.ingest.media_relays source_id) 0

-- The relay is made in either case; `relay` is a new one's number.
unfoldable pub start_normalizer : Backend → ℕ → ℕ → Media → MediaTx × Media
start_normalizer b relay source_id m =
    let related = record m { ingest = with_relay source_id relay m.ingest } in
    elim (b.launch (normalizer_args b.config)) [
      | inl e ↦ (direct (relay_of related source_id), related)
      | inr pid ↦ (raw pid, install_normalizer source_id pid related)
    ]

-- The events that touch the state modelled here, and the two ways a connection ends: a read of no bytes, and an error of
-- a read, a write or the protocol.
pub data Event : Type 0 where
  publish_requested : (relay : ℕ) → (stream_key : String) → Event
  publish_finished closed broken : Event
  audio_data video_data : List ℕ → (timestamp : ℕ) → Event

-- A source that has a publisher from now on.
unfoldable pub publish : Backend → ℕ → String → ℕ → Session → Server → Session × Server
publish b relay stream_key source_id session s =
    let (tx, m) = start_normalizer b relay source_id s.media in
    (
      record {
        active_stream_key = some stream_key;
        source_id = some source_id;
        media_tx = some tx;
        is_open = true;
      },
      record s { media = record m { ingest = set_source_state source_id live m.ingest } },
    )

unfoldable pub unpublish : ℕ → Server → Server
unpublish source_id s =
    let m = stop_normalizer source_id s.media in
    record s {
      media = record m {
        ingest = set_source_state source_id disconnected (forget_relay source_id m.ingest);
      };
    }

abbrev pub send : List ℕ → Session → Server → Server
send tag session s = elim session.media_tx [
  | none ↦ s
  | some tx ↦ record s { sent = (tx, tag) ∷ s.sent }
]

abbrev pub unpublish_any : Session → Server → Server
unpublish_any session s = elim session.source_id [ none ↦ s | some id ↦ unpublish id s ]

-- An unknown key and an error end the task at once.
unfoldable pub handle : Backend → Event → Session → Server → Session × Server
handle b (publish_requested relay stream_key) session s = elim (b.by_key stream_key) [
  | none ↦ (end_task session, s)
  | some id ↦ publish b relay stream_key (unwrap_or id 0) session s
]
handle b publish_finished session s = (new_session, unpublish_any session s)
handle b closed session s = (end_task session, unpublish_any session s)
handle b broken session s = (end_task session, s)
handle b (audio_data bytes timestamp) session s =
    (session, send (Flv.flv_audio_tag bytes timestamp) session s)
handle b (video_data bytes timestamp) session s =
    (session, send (Flv.flv_video_tag bytes timestamp) session s)

unfoldable pub run : Backend → List Event → Session → Server → Session × Server
run b [] session s = (session, s)
run b (event ∷ events) session s =
    let next = handle b event session s in
    let rest = run b events next.0 next.1 in if session.is_open then rest else (session, s)
