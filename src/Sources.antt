-- ===== src/Sources.antt =====
-- The routes that make and delete sources, crates/api/src/routes/sources.rs, with the SRT listeners' start of
-- crates/api/src/srt.rs and crates/api/src/startup.rs. A query does not fail; what ffmpeg, Chrome and the negotiation do is
-- given. A deletion tears down whatever may feed the source, over the parts of the shared state of `Media`,
-- `Browser` and `WebRtc`.
pub mod Listeners
pub mod Kinds
pub mod State
pub mod Teardown
pub mod Late
mod Examples
use shed.Sources.Listeners.{srt_args}
use shed.Sources.Kinds.{ensure_stream_key, srt_ports}
use shed.Sources.State.{AppState, set_media, peers_of, set_peers, kill_all}
use shed.Prelude.{
  ◌==◌, if◌then◌else◌, is_some, unwrap_or, option_eq, keep_if, any, find?, ℕ, String, ◌⊎◌, inl, inr,
  Bool, false, not, Option, none, some, List, [], ◌∷◌, ◌++◌, map, option_list, concat, decimal,
}
use shed.Prelude.Maps.{lookup, insert}
use shed.Types.{live, connecting, SourceKind, rtmp, srt, web_rtc, test_pattern, media_file, browser}
use shed.Types.MuxshedError.{MuxshedError, not_found}
use shed.Output.{OutputConfig}
use shed.Ingest.{Ingest, set_source_state, assign_srt_port}
use shed.Ingest as Ingest
use shed.WebRtc.{SourceRow, guest, stop_ingest, with_relay}
use shed.Media.{
  Launch, start_media_playback, stop_media_playback, ensure_playing, drop_player, forget_relay,
  stop_normalizer,
}
use shed.Browser.{Desktop, start_browser_source}
use shed.Browser as Browser

unfoldable pub stop_srt_listener : ℕ → AppState → AppState
stop_srt_listener id s =
    let killed = kill_all (option_list (lookup s.browsers.media.ingest.srt_listeners id)) s in
    set_media
      (record killed.browsers.media {
        ingest = Ingest.stop_srt_listener id s.browsers.media.ingest;
      })
      killed

unfoldable pub stop_guest_ingest : ℕ → AppState → AppState
stop_guest_ingest id s =
    kill_all (option_list (lookup s.browsers.media.source_normalizers id))
      (set_peers (stop_ingest id guest (peers_of s)) s)

unfoldable pub teardown : ℕ → AppState → AppState
unfolding stop_srt_listener Ingest.stop_srt_listener stop_media_playback drop_player forget_relay
    stop_guest_ingest stop_ingest Browser.stop_browser_source Browser.drop_chrome stop_normalizer
teardown id s =
    let unheard = stop_srt_listener id s in
    let unplayed = set_media (stop_media_playback id unheard.browsers.media) unheard in
    let parted = stop_guest_ingest id unplayed in
    record parted { browsers = Browser.stop_browser_source id parted.browsers }

abbrev pub has_row : ℕ → List SourceRow → Bool
has_row id rows = any (λ r. r.id == id) rows

unfoldable pub delete : ℕ → AppState → Option MuxshedError × AppState
delete id s =
    if has_row id s.sources
    then (none, teardown id (record s { sources = keep_if (λ r. not (r.id == id)) s.sources }))
    else (some (not_found (concat ("source " ∷ decimal id ∷ []))), s)

abbrev pub new_port : AppState → ℕ
new_port s =
    assign_srt_port s.srt_port_range_start s.browsers.media.ingest.srt_listeners
      (srt_ports s.sources)

unfoldable pub with_port : AppState → SourceKind → SourceKind
with_port s (srt port passphrase) = srt (if port == 0 then new_port s else port) passphrase
with_port s (rtmp k) = rtmp k
with_port s (web_rtc t) = web_rtc t
with_port s test_pattern = test_pattern
with_port s (media_file a f l) = media_file a f l
with_port s (browser u) = browser u

-- The listener under the source is replaced, and the source is connecting.
unfoldable pub install_listener : ℕ → ℕ → AppState → AppState
install_listener id pid s =
    let freed = kill_all (option_list (lookup s.browsers.media.ingest.srt_listeners id)) s in
    let m = freed.browsers.media in
    set_media
      (record m {
        ingest =
            set_source_state id connecting
              (record m.ingest { srt_listeners = insert m.ingest.srt_listeners id pid });
      })
      freed

-- `relay` is a new relay's number. The result is the error, none for `Ok(())`.
unfoldable pub start_srt_listener :
    Launch → OutputConfig → ℕ → ℕ → ℕ → Option String → AppState → Option String × AppState
start_srt_listener launch cfg relay id port passphrase s =
    let m = s.browsers.media in
    let related = set_media (record m { ingest = with_relay id relay m.ingest }) s in
    elim (launch (srt_args port passphrase cfg)) [
      | inl e ↦ (some (concat ("failed to start SRT listener ffmpeg: " ∷ e ∷ [])), related)
      | inr pid ↦ (none, install_listener id pid related)
    ]

-- What a request gets from outside: the new id and a new key, the output's configuration, a relay, and the
-- operating system.
pub record Outside : Type 0 where
  pub id : ℕ
  pub key : String
  pub config : OutputConfig
  pub relay : ℕ
  pub launch : Launch
  pub extension : String → String

-- The start of a listener; a browser's start is a task of its own (`browser_started`).
unfoldable pub listen : Outside → SourceKind → AppState → AppState
listen o (srt port passphrase) s =
    (start_srt_listener o.launch o.config o.relay o.id port passphrase s).1
listen o (rtmp k) s = s
listen o (web_rtc t) s = s
listen o test_pattern s = s
listen o (media_file a f l) s = s
listen o (browser u) s = s

unfoldable pub create : Outside → String → SourceKind → AppState → SourceRow × AppState
create o name kind s =
    let kept = with_port s (ensure_stream_key o.key kind) in
    let row : SourceRow = record { id = o.id; name = name; kind = some kept } in
    (row, listen o kept (record s { sources = s.sources ++ (row ∷ []) }))

-- The task that a creation of a browser source spawns, at whatever time it gets to run.
unfoldable pub browser_started : Desktop → OutputConfig → ℕ → String → AppState → AppState
browser_started d cfg id url s = record s {
  browsers = (start_browser_source d cfg id url s.browsers).1;
}

-- The row is rewritten, and nothing that runs is touched.
unfoldable pub update :
    String → ℕ → Option String → Option SourceKind → AppState → Option MuxshedError × AppState
update key id name kind s = elim (find? (λ r. r.id == id) s.sources) [
  | none ↦ (some (not_found (concat ("source " ∷ decimal id ∷ []))), s)
  | some existing ↦
      let kept : SourceKind = elim kind [
        | some k ↦ ensure_stream_key key k
        | none ↦ unwrap_or existing.kind test_pattern
      ] in
      let row : SourceRow = record {
        id = id;
        name = unwrap_or name existing.name;
        kind = some kept;
      } in
      (none, record s { sources = map (λ r. if r.id == id then row else r) s.sources })
]

pub record AssetRow : Type 0 where
  pub id : ℕ
  pub name : String
  pub file_path : String
  pub loop_mode : String

-- The query for a kind that names the asset.
abbrev pub plays : ℕ → SourceRow → Bool
plays asset r = elim r.kind [
  | some (media_file asset_id f l) ↦ asset_id == asset
  | some (rtmp k) ↦ false
  | some (srt p w) ↦ false
  | some (web_rtc t) ↦ false
  | some test_pattern ↦ false
  | some (browser u) ↦ false
  | none ↦ false
]

abbrev pub new_media_source : Outside → Option String → AssetRow → AppState → SourceRow × AppState
new_media_source o name a s =
    let row : SourceRow = record {
      id = o.id;
      name = unwrap_or name a.name;
      kind = some (media_file a.id a.file_path a.loop_mode);
    } in
    let m = s.browsers.media in
    let shown = record m {
      ingest = record m.ingest { source_states = insert m.ingest.source_states o.id live };
    } in
    let played =
      start_media_playback o.launch o.relay o.id (o.extension a.file_path) a.file_path a.loop_mode
        shown in
    (row, set_media played.1 (record s { sources = s.sources ++ (row ∷ []) }))

-- `assets` are the rows of the library.
unfoldable pub create_from_asset :
    Outside → List AssetRow → ℕ → Option String → AppState → (MuxshedError ⊎ SourceRow) × AppState
create_from_asset o assets asset name s = elim (find? (λ a. a.id == asset) assets) [
  | none ↦ (inl (not_found (concat ("asset " ∷ decimal asset ∷ []))), s)
  | some a ↦ elim (find? (plays asset) s.sources) [
    | some row ↦ (
      inr row,
      set_media
          (ensure_playing o.launch o.relay row.id (o.extension a.file_path) a.file_path a.loop_mode
            s.browsers.media)
          s,
    )
    | none ↦ let made = new_media_source o name a s in (inr made.0, made.1)
  ]
]

-- `cleanup_orphan_guest_sources`, before the server starts.
unfoldable pub cleanup_orphan_guest_sources : AppState → AppState
cleanup_orphan_guest_sources s = record s {
  sources = keep_if (λ r. not (any (λ g. option_eq g.source_id (some r.id)) s.guests)) s.sources;
  guests =
      map
        (λ g. if is_some g.source_id then record g { status = "invited"; source_id = none } else g)
        s.guests;
}
