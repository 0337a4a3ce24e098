-- ===== src/Media/Children.antt =====
-- The processes behind the sources: crates/api/src/media_player.rs.
use shed.Prelude.{
  ◌==◌, if◌then◌else◌, Bool-cases, Option-cases, is_some, ℕ, String, ◌≡◌, refl, ap, ◌∙◌, ◌⊎◌, inl,
  inr, true, false, Option, none, some, List, [], ◌∷◌, ◌++◌, arith, option_list, Sum-cases,
}
use shed.Prelude.Maps.{IdMap, lookup, remove, lookup-remove, lookup-insert}
use shed.Types.{SourceKind}
use mathlib.Core.Path.{subst}
use shed.Flv.Demux.{Tag, read_stream}
use shed.Ingest.{Ingest}
use shed.WebRtc.{with_relay}
use shed.Media.{
  feed_tags, feed_tag, Launch, Media, has_header, drop_player, install_player, launch_player,
  media_args, is_image, feed_relay, start_media_playback, ensure_playing, ensure_fallback_running,
}

-- A start of a source's process, by what its launch gives: the process is among the players, the one that
-- was there is killed, and other sources' are left; or nothing of that changes.
abbrev pub Replaces : String ⊎ ℕ → ℕ → IdMap ℕ → List ℕ → Option String × Media → Type 0
Replaces (inl e) id players killed (result, s') =
    (is_some result ≡ true) × (s'.media_players ≡ players) × (s'.killed ≡ killed)
Replaces (inr pid) id players killed (result, s') =
    (result ≡ none)
    × ((j : ℕ) → lookup s'.media_players j ≡ (if id == j then some pid else lookup players j))
    × (s'.killed ≡ option_list (lookup players id) ++ killed)

launch_player-Replaces :
    (launch : Launch) (args : List String) (id : ℕ) (s : Media)
    → Replaces (launch args) id s.media_players s.killed (launch_player launch args id s)
unfolding launch_player install_player drop_player
launch_player-Replaces launch args id s = elim (Sum-cases (launch args)) [
  | inl (e, h) ↦ rw (launch_player, h) (refl, refl, refl)
  | inr (pid, h) ↦
      rw (launch_player, h)
        (
          refl,
          λ j. ground (
            arith,
            lookup-insert (remove s.media_players id) id pid j,
            lookup-remove s.media_players id j,
          ),
          refl,
        )
]

-- A start of a playback puts its process among the players and kills the one that it replaces, and
-- leaves those of other sources; one that ffmpeg refuses is an error and changes no process.
pub playback-Replaces :
    (launch : Launch) (relay id : ℕ) (extension file_path loop_mode : String) (s : Media)
    → Replaces
        (launch (media_args (is_image extension) file_path loop_mode))
        id
        s.media_players
        s.killed
        (start_media_playback launch relay id extension file_path loop_mode s)
unfolding start_media_playback
playback-Replaces launch relay id extension file_path loop_mode s =
    launch_player-Replaces launch (media_args (is_image extension) file_path loop_mode) id
      (record s { ingest = with_relay id relay s.ingest })

-- The entry of a reader that ends is removed, and its process killed.
feed_relay_ends :
    (id pid : ℕ) (s : Media) (stdout : List ℕ)
    → has_header stdout ≡ true
    → lookup s.media_players id ≡ some pid
    → (lookup (feed_relay id stdout s).media_players id ≡ none)
      × ((feed_relay id stdout s).killed ≡ pid ∷ s.killed)
unfolding feed_relay drop_player
feed_relay_ends id pid s stdout h e =
    rw (feed_relay, h, e) (ground (arith, lookup-remove s.media_players id id), refl)

-- A playback that replaces one does not last: once the reader of the process that it replaced and
-- killed comes to the end, it removes the entry of the source, and so kills the new process. The source is left
-- without a player.
pub replacement_is_killed :
    (launch : Launch) (relay id pid : ℕ) (extension file_path loop_mode : String) (s : Media)
    (stdout : List ℕ)
    → launch (media_args (is_image extension) file_path loop_mode) ≡ inr pid
    → has_header stdout ≡ true
    → let started = (start_media_playback launch relay id extension file_path loop_mode s).1 in
      let ended = feed_relay id stdout started in
      (lookup ended.media_players id ≡ none)
      × (ended.killed ≡ pid ∷ (option_list (lookup s.media_players id) ++ s.killed))
replacement_is_killed launch relay id pid extension file_path loop_mode s stdout h e =
    let started = (start_media_playback launch relay id extension file_path loop_mode s).1 in
    let (result, players, killed) =
      subst
        (λ r.
          Replaces r id s.media_players s.killed
            (start_media_playback launch relay id extension file_path loop_mode s))
        h (playback-Replaces launch relay id extension file_path loop_mode s) in
    let there : lookup started.media_players id ≡ some pid = ground (arith, players id) in
    let (gone, now_killed) = feed_relay_ends id pid started stdout e there in
    (gone, now_killed ∙ ap (λ k. pid ∷ k) killed)

feed_tags-relays :
    (id : ℕ) (tags : List Tag) (s : Ingest) → (feed_tags id tags s).media_relays ≡ s.media_relays
unfolding feed_tags feed_tag
feed_tags-relays id [] s = refl
feed_tags-relays id (tag ∷ tags) s = feed_tags-relays id tags (feed_tag id tag s)

feed_relay-relays :
    (id : ℕ) (stdout : List ℕ) (s : Media)
    → (feed_relay id stdout s).ingest.media_relays ≡ s.ingest.media_relays
unfolding feed_relay drop_player
feed_relay-relays id stdout s = elim (Bool-cases (has_header stdout)) [
  | inl e ↦ rw (feed_relay, e) (feed_tags-relays id (read_stream stdout) s.ingest)
  | inr e ↦ rw (feed_relay, e) refl
]

-- A fallback whose playback has ended is not started again when the program is to fall back on it:
-- the end of a playback leaves the source its relay, which is taken for a playback that runs.
pub ended_fallback_stays :
    (launch : Launch) (relay id r : ℕ) (kind : Option SourceKind) (extension : String) (s : Media)
    (stdout : List ℕ)
    → lookup s.ingest.media_relays id ≡ some r
    → ensure_fallback_running launch relay id kind extension (feed_relay id stdout s)
      ≡ feed_relay id stdout s
unfolding ensure_fallback_running feed_relay
ended_fallback_stays launch relay id r kind extension s stdout h =
    rw
      (ensure_fallback_running, ap (λ relays. lookup relays id) (feed_relay-relays id stdout s) ∙ h)
      refl

-- A process that ended without a header keeps its entry among the players, so that the source is
-- not started again by a request for it.
pub headerless_stays :
    (launch : Launch) (relay id : ℕ) (extension file_path loop_mode : String) (s : Media)
    (stdout : List ℕ)
    → has_header stdout ≡ false
    → is_some (lookup s.media_players id) ≡ true
    → ensure_playing launch relay id extension file_path loop_mode (feed_relay id stdout s) ≡ s
unfolding feed_relay ensure_playing
headerless_stays launch relay id extension file_path loop_mode s stdout h p =
    let same : feed_relay id stdout s ≡ s = rw (feed_relay, h) refl in
    elim (Option-cases (lookup s.media_players id)) [
      | inl e ↦ absurd (ground (arith, p, e))
      | inr (pid, e) ↦ rw same (rw (ensure_playing, e) refl)
    ]
