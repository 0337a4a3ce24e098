-- ===== src/WebRtc/Teardown.antt =====
-- What an ingest leaves of the peers: crates/api/src/webrtc_ingest.rs.
use shed.Prelude.{
  ◌==◌, if◌then◌else◌, Option-cases, is_some, ℕ, ◌≡◌, refl, ◌⊎◌, inl, inr, Bool, true, false,
  Option, none, some, ◌∷◌, arith,
}
use shed.Prelude.Maps.{lookup, insert, lookup-remove}
use shed.Flv.Demux.{Tag}
use shed.WebRtc.{IngestKind, Peers, stop_ingest, start_ffmpeg, watchdog, video_track, read_tag}

-- The sources that have a peer.
unfoldable pub occupied : Peers → ℕ → Bool
occupied s id = is_some (lookup s.guest_peers id)

-- A source's children are ffmpeg processes that read its packets.
unfoldable pub has_child : Peers → ℕ → Bool
has_child s id = is_some (lookup s.source_normalizers id)

module _ (source_id : ℕ) (kind : IngestKind) (s : Peers) where
  pub occupied-stop_ingest :
      (j : ℕ)
      → occupied (stop_ingest source_id kind s) j ≡ (if source_id == j then false else occupied s j)
  unfolding occupied stop_ingest
  occupied-stop_ingest j = ground (arith, lookup-remove s.guest_peers source_id j)

  pub has_child-stop_ingest :
      (j : ℕ)
      → has_child (stop_ingest source_id kind s) j
        ≡ (if source_id == j then false else has_child s j)
  unfolding has_child stop_ingest
  has_child-stop_ingest j = ground (arith, lookup-remove s.source_normalizers source_id j)

  pub watchdog_cases :
      (watchdog source_id kind s ≡ s) ⊎ (watchdog source_id kind s ≡ stop_ingest source_id kind s)
  unfolding watchdog
  watchdog_cases = ground arith

  pub occupied-read_tag :
      (n : ℕ) (tag : Tag) (j : ℕ) → occupied (read_tag source_id kind n tag s) j ≡ occupied s j
  unfolding occupied read_tag
  occupied-read_tag n tag j = refl

-- A track either starts a child, for a source that has a peer, or ends the ingest.
pub video_track_cases :
    (source_id : ℕ) (kind : IngestKind) (child : Option ℕ) (s : Peers)
    → ((pid : ℕ) × (occupied s source_id ≡ true)
        × ((video_track source_id kind child s).guest_peers ≡ s.guest_peers)
        × ((video_track source_id kind child s).whip_sessions ≡ s.whip_sessions)
        × ((video_track source_id kind child s).source_normalizers
            ≡ insert s.source_normalizers source_id pid))
      ⊎ (video_track source_id kind child s
          ≡ stop_ingest source_id kind (record s { sdp_files = source_id ∷ s.sdp_files }))
unfolding video_track start_ffmpeg occupied
video_track_cases source_id kind none s = inr refl
video_track_cases source_id kind (some pid) s =
    elim (Option-cases (lookup s.guest_peers source_id)) [
      | inl e ↦ inr (rw (video_track, start_ffmpeg, e) refl)
      | inr (peer, e) ↦
          inl (pid, rw e refl, ground (arith, e), ground (arith, e), ground (arith, e))
    ]
