-- ===== src/WebRtc.antt =====
-- crates/api/src/webrtc_ingest.rs: a WebRTC publisher as a source. The peer connection is the webrtc
-- crate's; what it does is given: how the negotiation of an offer ends (`Negotiation`), and when the
-- peer's state changes or its video track begins, which are calls of the functions here. The part of
-- the shared state that an ingest touches is a record over `Ingest`.
pub mod Codec
pub mod Teardown
use shed.Prelude.{
  ◌==◌, if◌then◌else◌, unwrap_or, option_eq, keep_if, ℕ, String, ◌⊎◌, inl, inr, Bool, true, false,
  not, ◌&&◌, Option, none, some, List, [], ◌∷◌, ◌++◌, map, option_list, ◌>>=◌,
}
use shed.Prelude.Maps.{IdMap, lookup, insert, remove}
use shed.Types.{SourceState, live, connecting, disconnected, SourceKind}
use shed.Flv.Demux.{Tag}
use shed.Ingest.{Ingest, set_source_state, publish}

pub data IngestKind : Type 0 where
  persistent guest : IngestKind

-- A row of `guests`.
pub record Guest : Type 0 where
  pub token : String
  pub name : String
  pub status : String
  pub source_id : Option ℕ

-- A row of `sources`: its kind as serde reads it.
pub record SourceRow : Type 0 where
  pub id : ℕ
  pub name : String
  pub kind : Option SourceKind

-- `source_normalizers` holds ffmpeg processes, `guest_peers` peer connections, `whip_sessions` the
-- source of each session; `sdp_files` are the sources with an SDP file, and `closing` the peers whose
-- close has been spawned, newest first.
pub record Peers : Type 0 where
  pub ingest : Ingest
  pub source_normalizers : IdMap ℕ
  pub guest_peers : IdMap ℕ
  pub whip_sessions : IdMap ℕ
  pub guests : List Guest
  pub sources : List SourceRow
  pub sdp_files : List ℕ
  pub closing : List ℕ

-- The sessions of other sources.
unfoldable pub retain_others : ℕ → IdMap ℕ → IdMap ℕ
retain_others source_id [] = []
retain_others source_id ((session, sid) ∷ sessions) =
    let rest = retain_others source_id sessions in
    if sid == source_id then rest else (session, sid) ∷ rest

unfoldable pub without : ℕ → List ℕ → List ℕ
without source_id files = keep_if (λ f. not (f == source_id)) files

abbrev pub is_for : ℕ → Guest → Bool
is_for source_id g = option_eq g.source_id (some source_id)

-- `UPDATE guests SET status = 'left', source_id = NULL WHERE source_id = ?`.
unfoldable pub guests_left : ℕ → List Guest → List Guest
guests_left source_id guests =
    map (λ g. if is_for source_id g then record g { status = "left"; source_id = none } else g)
      guests

-- `UPDATE guests SET status = 'connected' WHERE source_id = ?`.
unfoldable pub guests_connected : ℕ → List Guest → List Guest
guests_connected source_id guests =
    map (λ g. if is_for source_id g then record g { status = "connected" } else g) guests

abbrev pub is_guest : IngestKind → Bool
is_guest persistent = false
is_guest guest = true

unfoldable pub stop_ingest : ℕ → IngestKind → Peers → Peers
stop_ingest source_id kind s =
    let stopped = set_source_state source_id disconnected (record s.ingest {
      media_relays = remove s.ingest.media_relays source_id;
      sequence_headers = remove s.ingest.sequence_headers source_id;
    }) in
    record {
      ingest = stopped;
      source_normalizers = remove s.source_normalizers source_id;
      guest_peers = remove s.guest_peers source_id;
      whip_sessions = retain_others source_id s.whip_sessions;
      guests = if is_guest kind then guests_left source_id s.guests else s.guests;
      sources =
          if is_guest kind then keep_if (λ r. not (r.id == source_id)) s.sources else s.sources;
      sdp_files = without source_id s.sdp_files;
      closing = option_list (lookup s.guest_peers source_id) ++ s.closing;
    }

-- How the negotiation of an offer ends: with an error before or after the relay is made, or with the
-- answer and the peer.
pub data Negotiation : Type 0 where
  rejected failed : String → Negotiation
  answered : (sdp : String) → (peer : ℕ) → Negotiation

-- `get_or_create_media_relay`; a relay is a number.
unfoldable pub with_relay : ℕ → ℕ → Ingest → Ingest
with_relay source_id relay s =
    let kept = unwrap_or (lookup s.media_relays source_id) relay in
    record s { media_relays = insert s.media_relays source_id kept }

unfoldable pub start_ingest : Negotiation → ℕ → ℕ → Peers → (String ⊎ String) × Peers
start_ingest (rejected e) relay source_id s = (inl e, s)
start_ingest (failed e) relay source_id s =
    (inl e, record s { ingest = with_relay source_id relay s.ingest })
start_ingest (answered sdp peer) relay source_id s = (
  inr sdp,
  record s {
    ingest = with_relay source_id relay s.ingest;
    guest_peers = insert s.guest_peers source_id peer;
  },
)

-- The end of the watchdog that `start_ingest` spawns.
unfoldable pub watchdog : ℕ → IngestKind → Peers → Peers
watchdog source_id kind s = elim (lookup s.ingest.source_states source_id) [
  | some live ↦ s
  | some disconnected ↦ stop_ingest source_id kind s
  | some connecting ↦ stop_ingest source_id kind s
  | some (SourceState.error e) ↦ stop_ingest source_id kind s
  | none ↦ stop_ingest source_id kind s
]

-- The SDP file is written before ffmpeg starts; a child for a source without a peer is dropped.
-- `child` is the process, none if it does not start.
unfoldable pub start_ffmpeg : ℕ → Option ℕ → Peers → Option Peers
start_ffmpeg source_id child s =
    let written = record s { sdp_files = source_id ∷ s.sdp_files } in
    do
      pid ← child
      _ ← lookup s.guest_peers source_id
      some (record written {
        source_normalizers = insert s.source_normalizers source_id pid;
        ingest = set_source_state source_id connecting s.ingest;
      })

-- The first packet of the first video track of a peer.
unfoldable pub video_track : ℕ → IngestKind → Option ℕ → Peers → Peers
video_track source_id kind child s =
    unwrap_or (start_ffmpeg source_id child s)
      (stop_ingest source_id kind (record s { sdp_files = source_id ∷ s.sdp_files }))

-- One turn of `read_flv_output`, after the tag is read.
unfoldable pub read_tag : ℕ → IngestKind → ℕ → Tag → Peers → Peers
read_tag source_id kind frame_count tag s = record s {
  ingest = publish source_id frame_count tag s.ingest;
  guests =
      if is_guest kind && (frame_count == 0) then guests_connected source_id s.guests else s.guests;
}
