-- ===== src/Rtmp/Sessions.antt =====
-- What a connection leaves of its source: crates/api/src/rtmp/server.rs.
use shed.Prelude.{
  if◌then◌else◌, is_some, unwrap_or, All, ℕ, String, ◌≡◌, refl, sym, ap, ◌∙◌, inl, inr, true, none,
  some, List, [], ◌∷◌, ◌++◌, arith, Sum-cases,
}
use mathlib.Core.Path.{subst}
use shed.Prelude.Maps.{lookup, lookup-remove, lookup-insert}
use shed.Types.{live, disconnected}
use shed.WebRtc.{with_relay}
use shed.Media.{Media, stop_normalizer, forget_relay}
use shed.Flv.{flv_audio_tag, flv_video_tag}
use shed.Rtmp.{
  Backend, Event, publish_requested, publish_finished, closed, broken, audio_data, video_data,
  Session, Server, new_session, handle, run, publish, unpublish, start_normalizer,
  install_normalizer, normalizer_args, send,
}

abbrev pub IsData : Event → Type 0
IsData (audio_data bytes timestamp) = Unit
IsData (video_data bytes timestamp) = Unit
IsData (publish_requested relay stream_key) = ⊥
IsData publish_finished = ⊥
IsData closed = ⊥
IsData broken = ⊥

send-media : (tag : List ℕ) (session : Session) (s : Server) → (send tag session s).media ≡ s.media
send-media tag session s = ground arith

data_step :
    (b : Backend) (event : Event) (session : Session) (s : Server)
    → IsData event
    → ((handle b event session s).0 ≡ session) × ((handle b event session s).1.media ≡ s.media)
unfolding handle
data_step b (audio_data bytes timestamp) session s h =
    (refl, send-media (flv_audio_tag bytes timestamp) session s)
data_step b (video_data bytes timestamp) session s h =
    (refl, send-media (flv_video_tag bytes timestamp) session s)
data_step b (publish_requested relay stream_key) session s h = absurd h
data_step b publish_finished session s h = absurd h
data_step b closed session s h = absurd h
data_step b broken session s h = absurd h

run_open :
    (b : Backend) (event : Event) (events : List Event) (session : Session) (s : Server)
    → session.is_open ≡ true
    → run b (event ∷ events) session s
      ≡ run b events (handle b event session s).0 (handle b event session s).1
unfolding run
run_open b event events session s is_up =
    ap
      (λ c.
        if c
        then run b events (handle b event session s).0 (handle b event session s).1
        else (session, s))
      is_up

-- Data changes neither the session nor the shared state, whatever comes after it.
after_data :
    (b : Backend) (events : List Event) (last : Event) (session : Session) (s : Server)
    → All IsData events
    → session.is_open ≡ true
    → (s' : Server) × (s'.media ≡ s.media)
      × (run b (events ++ (last ∷ [])) session s ≡ handle b last session s')
unfolding run
after_data b [] last session s h is_up = (s, refl, run_open b last [] session s is_up)
after_data b (event ∷ events) last session s (h, rest) is_up =
    let next = handle b event session s in
    let (same, media) = data_step b event session s h in
    let (s', media', eq) = after_data b events last session next.1 rest is_up in
    let moved : run b (events ++ (last ∷ [])) next.0 next.1
        ≡ run b (events ++ (last ∷ [])) session next.1 =
      ap (λ q. run b (events ++ (last ∷ [])) q next.1) same in
    (s', media' ∙ media, run_open b event (events ++ (last ∷ [])) session s is_up ∙ moved ∙ eq)

-- What a source has after its publisher has gone: no relay, no headers, no process, and the state
-- that says so.
abbrev pub Unpublished : ℕ → Media → Type 0
Unpublished id m =
    (lookup m.ingest.source_states id ≡ some disconnected)
    × (lookup m.ingest.media_relays id ≡ none)
    × (lookup m.ingest.sequence_headers id ≡ none)
    × (lookup m.source_normalizers id ≡ none)

unpublish-Unpublished : (id : ℕ) (s : Server) → Unpublished id (unpublish id s).media
unfolding unpublish stop_normalizer forget_relay
unpublish-Unpublished id s = (
  ground (arith, lookup-insert s.media.ingest.source_states id disconnected id),
  ground (arith, lookup-remove s.media.ingest.media_relays id id),
  ground (arith, lookup-remove s.media.ingest.sequence_headers id id),
  ground (arith, lookup-remove s.media.source_normalizers id id),
)

-- What a source has while it has a publisher.
abbrev pub Published : ℕ → Media → Type 0
Published id m =
    (lookup m.ingest.source_states id ≡ some live)
    × (is_some (lookup m.ingest.media_relays id) ≡ true)

start_normalizer-relay :
    (b : Backend) (relay id : ℕ) (m : Media)
    → is_some (lookup (start_normalizer b relay id m).1.ingest.media_relays id) ≡ true
unfolding start_normalizer install_normalizer stop_normalizer with_relay
start_normalizer-relay b relay id m =
    let there =
      lookup-insert m.ingest.media_relays id (unwrap_or (lookup m.ingest.media_relays id) relay)
        id in
    elim (Sum-cases (b.launch (normalizer_args b.config))) [
      | inl (e, h) ↦ rw (start_normalizer, h) (ground (arith, there))
      | inr (pid, h) ↦ rw (start_normalizer, h) (ground (arith, there))
    ]

publish-Published :
    (b : Backend) (relay : ℕ) (stream_key : String) (id : ℕ) (session : Session) (s : Server)
    → Published id (publish b relay stream_key id session s).1.media
unfolding publish
publish-Published b relay stream_key id session s =
    let m = (start_normalizer b relay id s.media).1 in
    (
      ground (arith, lookup-insert m.ingest.source_states id live id),
      start_normalizer-relay b relay id s.media,
    )

handle-publish :
    (b : Backend) (relay id : ℕ) (stream_key : String) (session : Session) (s : Server)
    → b.by_key stream_key ≡ some (some id)
    → handle b (publish_requested relay stream_key) session s
      ≡ publish b relay stream_key id session s
unfolding handle
handle-publish b relay id stream_key session s known = rw (handle, known) refl

-- A new session that publishes on a known key and sends its data ends in the handling of its last
-- event, on the state that the publishing left.
published_run :
    (b : Backend) (relay id : ℕ) (stream_key : String) (events : List Event) (last : Event)
    (s : Server)
    → b.by_key stream_key ≡ some (some id)
    → All IsData events
    → let published = publish b relay stream_key id new_session s in
      (s' : Server) × (s'.media ≡ published.1.media)
      × (run b (publish_requested relay stream_key ∷ (events ++ (last ∷ []))) new_session s
          ≡ handle b last published.0 s')
unfolding publish
published_run b relay id stream_key events last s known data_only =
    let published = publish b relay stream_key id new_session s in
    let (s', media, eq) = after_data b events last published.0 published.1 data_only refl in
    let began = handle-publish b relay id stream_key new_session s known in
    (
      s',
      media,
      run_open b (publish_requested relay stream_key) (events ++ (last ∷ [])) new_session s refl
          ∙ ap (λ r. run b (events ++ (last ∷ [])) r.0 r.1) began
          ∙ eq,
    )

-- A publisher that closes its connection leaves nothing of its source: after a known key, any data and
-- the end of the stream the source is disconnected, and has no relay, no headers and no normalizer.
pub closed_run-Unpublished :
    (b : Backend) (relay id : ℕ) (stream_key : String) (events : List Event) (s : Server)
    → b.by_key stream_key ≡ some (some id)
    → All IsData events
    → Unpublished id
        (run b
          (publish_requested relay stream_key ∷ (events ++ (closed ∷ [])))
          new_session
          s).1.media
unfolding handle publish
closed_run-Unpublished b relay id stream_key events s known data_only =
    let (s', media, eq) = published_run b relay id stream_key events closed s known data_only in
    subst (λ r. Unpublished id r.1.media) (sym eq) (unpublish-Unpublished id s')

-- A publisher whose connection breaks leaves its source as if it were still publishing: the source
-- stays live and keeps its relay.
pub lost_connection-Published :
    (b : Backend) (relay id : ℕ) (stream_key : String) (events : List Event) (s : Server)
    → b.by_key stream_key ≡ some (some id)
    → All IsData events
    → Published id
        (run b
          (publish_requested relay stream_key ∷ (events ++ (broken ∷ [])))
          new_session
          s).1.media
unfolding handle publish
lost_connection-Published b relay id stream_key events s known data_only =
    let (s', media, eq) = published_run b relay id stream_key events broken s known data_only in
    subst (λ r. Published id r.1.media) (sym eq)
      (subst (Published id) (sym media) (publish-Published b relay stream_key id new_session s))

-- Once the first session closes, the second one still sends, and its source is gone.
abbrev pub CutOff : Backend → ℕ → Session → Session × Server → Type 0
CutOff b id first (second, s) =
    (second.source_id ≡ some id)
    × (second.is_open ≡ true)
    × Unpublished id (handle b closed first s).1.media

-- When two connections publish on one key and the first one closes, the second one goes on sending
-- into a process that is killed: its session is as it was, and its source has no relay and is disconnected.
pub first_close_cuts_second :
    (b : Backend) (relay relay' id : ℕ) (stream_key : String) (s : Server)
    → b.by_key stream_key ≡ some (some id)
    → let first = handle b (publish_requested relay stream_key) new_session s in
      let second = handle b (publish_requested relay' stream_key) new_session first.1 in
      CutOff b id first.0 second
unfolding handle publish
first_close_cuts_second b relay relay' id stream_key s known =
    let first = publish b relay stream_key id new_session s in
    let second = publish b relay' stream_key id new_session first.1 in
    subst (λ r. CutOff b id r.0 (handle b (publish_requested relay' stream_key) new_session r.1))
      (sym (handle-publish b relay id stream_key new_session s known))
      (subst (CutOff b id first.0)
        (sym (handle-publish b relay' id stream_key new_session first.1 known))
        (refl, refl, unpublish-Unpublished id second.1))
