-- ===== src/Sources/State.antt =====
-- The shared state that the routes of sources touch: crates/api/src/state.rs.
use shed.Prelude.{ℕ, List, ◌++◌}
use shed.Prelude.Maps.{IdMap}
use shed.WebRtc.{Guest, SourceRow, Peers}
use shed.Media.{Media}
use shed.Browser.{Browsers}

-- What the routes touch of the shared state; `srt_port_range_start` is of the configuration.
pub record AppState : Type 0 where
  pub browsers : Browsers
  pub guest_peers : IdMap ℕ
  pub whip_sessions : IdMap ℕ
  pub guests : List Guest
  pub sources : List SourceRow
  pub sdp_files : List ℕ
  pub closing : List ℕ
  pub srt_port_range_start : ℕ

abbrev pub media_of : AppState → Media
media_of s = s.browsers.media

abbrev pub set_media : Media → AppState → AppState
set_media m s = record s { browsers = record s.browsers { media = m } }

-- The WebRTC part, and the state with a new one. A normalizer that `stop_ingest` removes is killed.
abbrev pub peers_of : AppState → Peers
peers_of s = record {
  ingest = s.browsers.media.ingest;
  source_normalizers = s.browsers.media.source_normalizers;
  guest_peers = s.guest_peers;
  whip_sessions = s.whip_sessions;
  guests = s.guests;
  sources = s.sources;
  sdp_files = s.sdp_files;
  closing = s.closing;
}

abbrev pub set_peers : Peers → AppState → AppState
set_peers p s = record s {
  browsers = record s.browsers {
    media = record s.browsers.media {
      ingest = p.ingest;
      source_normalizers = p.source_normalizers;
    };
  };
  guest_peers = p.guest_peers;
  whip_sessions = p.whip_sessions;
  guests = p.guests;
  sources = p.sources;
  sdp_files = p.sdp_files;
  closing = p.closing;
}

abbrev pub kill_all : List ℕ → AppState → AppState
kill_all pids s = set_media (record s.browsers.media { killed = pids ++ s.browsers.media.killed }) s
