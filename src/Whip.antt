-- ===== src/Whip.antt =====
-- crates/api/src/routes/whip.rs and the WHIP endpoint of crates/api/src/routes/guests.rs: publishing
-- over WebRTC. `like` is SQL's LIKE for a token in the stored kind, whose text another package writes;
-- new ids are arguments. A handler runs without another turn in between, except where its parts are
-- named: `publish_check` and `publish_start` are `publish`.
pub mod Publisher
pub mod Tidy
pub mod Stale
mod Examples
use shed.Prelude.{
  if◌then◌else◌, is_some, or_else, unwrap_or, any, find?, ℕ, String, ◌⊎◌, inl, inr, Bool, true,
  false, not, ◌&&◌, ◌||◌, Option, none, some, List, [], ◌∷◌, ◌++◌, map, ◌>>=◌, concat, decimal,
  string_eq, strip_prefix, trim,
}
use shed.Prelude.Maps.{lookup, insert, remove}
use shed.Types.{
  SourceState, live, connecting, disconnected, SourceKind, web_rtc, rtmp, srt, test_pattern,
  media_file, browser,
}
use shed.Flv.Demux.{Tag}
use shed.WebRtc.{
  IngestKind, persistent, guest, Guest, SourceRow, Peers, Negotiation, retain_others, start_ingest,
  stop_ingest, watchdog, video_track, read_tag, is_for,
}

abbrev pub Like : Type 0
Like = String → SourceRow → Bool

-- The `Authorization` header's text.
unfoldable pub bearer_token : Option String → Option String
bearer_token header = do
  value ← header
  rest ← or_else (strip_prefix "Bearer " value) (strip_prefix "bearer " value)
  if string_eq (trim rest) "" then none else some (trim rest)

abbrev pub is_token : String → Option SourceKind → Bool
is_token token (some (web_rtc t)) = string_eq t token
is_token token (some (rtmp k)) = false
is_token token (some (srt port passphrase)) = false
is_token token (some test_pattern) = false
is_token token (some (media_file asset_id file_path loop_mode)) = false
is_token token (some (browser url)) = false
is_token token none = false

-- The source, none for the status 401.
unfoldable pub resolve_source : Like → String → Peers → Option ℕ
resolve_source like token s = do
  row ← find? (like token) s.sources
  if is_token token row.kind && not (any (is_for row.id) s.guests) then some row.id else none

-- A session's location shows its id.
pub data Response : Type 0 where
  created : (location sdp : String) → Response
  status : (code : ℕ) → Response

abbrev pub is_publishing : Option SourceState → Bool
is_publishing (some live) = true
is_publishing (some connecting) = true
is_publishing (some disconnected) = false
is_publishing (some (SourceState.error e)) = false
is_publishing none = false

-- The checks: a status code, or the source.
unfoldable pub publish_check : Like → Option String → Peers → ℕ ⊎ ℕ
publish_check like header s =
    elim (bearer_token header >>= (λ token. resolve_source like token s)) [
      | none ↦ inl 401
      | some source_id ↦
          if is_publishing (lookup s.ingest.source_states source_id)
            || is_some (lookup s.guest_peers source_id)
          then inl 409
          else inr source_id
    ]

-- The ingest, and the session of it.
unfoldable pub publish_start : Negotiation → ℕ → ℕ → ℕ → Peers → Response × Peers
publish_start negotiation relay session source_id s =
    let (answer, started) = start_ingest negotiation relay source_id s in
    elim answer [
      | inl e ↦ (status 400, stop_ingest source_id persistent started)
      | inr sdp ↦ (
        created (concat ("/api/v1/whip/" ∷ decimal session ∷ [])) sdp,
        record started {
          whip_sessions = insert (retain_others source_id started.whip_sessions) session source_id;
        },
      )
    ]

-- The whole request as one turn. The code has waits between the check and the peer, where another request may run;
-- `publish_check` and `publish_start` are the two parts.
unfoldable pub publish : Like → Option String → Negotiation → ℕ → ℕ → Peers → Response × Peers
publish like header negotiation relay session s = elim (publish_check like header s) [
  | inl code ↦ (status code, s)
  | inr source_id ↦ publish_start negotiation relay session source_id s
]

-- The session of the path, none if it is no UUID.
unfoldable pub teardown : Option ℕ → Peers → Response × Peers
teardown session s = elim (session >>= lookup s.whip_sessions) [
  | none ↦ (
    status 204,
    record s {
      whip_sessions = elim session [
        | none ↦ s.whip_sessions
        | some session_id ↦ remove s.whip_sessions session_id
      ];
    },
  )
  | some source_id ↦ (
    status 204,
    stop_ingest source_id persistent
        (record s { whip_sessions = remove s.whip_sessions (unwrap_or session 0) }),
  )
]

-- The rows of a guest that joins: the source, and the guest's status.
abbrev pub guest_joining : String → Guest → ℕ → Peers → Peers
guest_joining token g source_id s =
    let row : SourceRow = record {
      id = source_id;
      name = concat (g.name ∷ " (guest)" ∷ []);
      kind = some (web_rtc token);
    } in
    record s {
      sources = s.sources ++ (row ∷ []);
      guests =
          map
            (λ h.
              if string_eq h.token token
              then record h { status = "connecting"; source_id = some source_id }
              else h)
            s.guests;
    }

unfoldable pub guest_start : String → Negotiation → ℕ → ℕ → Peers → Response × Peers
guest_start token negotiation relay source_id s =
    let (answer, started) = start_ingest negotiation relay source_id s in
    elim answer [
      | inl e ↦ (status 400, stop_ingest source_id guest started)
      | inr sdp ↦ (created (concat ("/api/v1/guest/" ∷ token ∷ "/whip" ∷ [])) sdp, started)
    ]

-- `whip` of routes/guests.rs, where the source's row is written.
unfoldable pub guest_whip : String → Negotiation → ℕ → ℕ → Peers → Response × Peers
guest_whip token negotiation relay source_id s =
    elim (find? (λ g. string_eq g.token token) s.guests) [
      | none ↦ (status 404, s)
      | some g ↦ guest_start token negotiation relay source_id (guest_joining token g source_id s)
    ]

-- What can happen, in any order: requests, the peer's callback, the watchdog, the first packet of a
-- video track, and a tag from ffmpeg.
pub data Op : Type 0 where
  op_publish : Option String → Negotiation → (relay session : ℕ) → Op
  op_teardown : Option ℕ → Op
  op_guest_whip : String → Negotiation → (relay source_id : ℕ) → Op
  op_peer_lost op_watchdog : (source_id : ℕ) → IngestKind → Op
  op_video_track : (source_id : ℕ) → IngestKind → (child : Option ℕ) → Op
  op_tag : (source_id : ℕ) → IngestKind → (frame_count : ℕ) → Tag → Op

-- A request has a response.
abbrev pub responds : Response × Peers → Option Response × Peers
responds r = (some r.0, r.1)

unfoldable pub step : Like → Op → Peers → Option Response × Peers
step like (op_publish header negotiation relay session) s =
    responds (publish like header negotiation relay session s)
step like (op_teardown session) s = responds (teardown session s)
step like (op_guest_whip token negotiation relay source_id) s =
    responds (guest_whip token negotiation relay source_id s)
step like (op_peer_lost source_id kind) s = (none, stop_ingest source_id kind s)
step like (op_watchdog source_id kind) s = (none, watchdog source_id kind s)
step like (op_video_track source_id kind child) s = (none, video_track source_id kind child s)
step like (op_tag source_id kind frame_count tag) s =
    (none, read_tag source_id kind frame_count tag s)

unfoldable pub run : Like → List Op → Peers → Peers
run like [] s = s
run like (op ∷ history) s = run like history (step like op s).1

unfoldable pub responses : Like → List Op → Peers → List (Option Response)
responses like [] s = []
responses like (op ∷ history) s = (step like op s).0 ∷ responses like history (step like op s).1
