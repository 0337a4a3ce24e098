-- ===== src/Whip/Stale.antt =====
-- Publishers that meet: crates/api/src/routes/whip.rs and crates/api/src/webrtc_ingest.rs.
use shed.Prelude.{==_refl, ℕ, String, ◌≡◌, refl, ◌∙◌, ◌≢◌, inr, Option, none, some, [], ◌∷◌, arith}
use shed.Prelude.Maps.{IdMap, lookup, insert, remove, lookup-insert, lookup-remove}
use shed.WebRtc.{persistent, Peers, answered, retain_others, start_ingest, stop_ingest}
use shed.Whip.{Like, created, publish_check, publish_start}

lookup-retain_others-none :
    (id k : ℕ) (m : IdMap ℕ) → lookup m k ≡ none → lookup (retain_others id m) k ≡ none
unfolding retain_others lookup
lookup-retain_others-none id k [] h = refl
lookup-retain_others-none id k ((j, sid) ∷ m) h =
    ground (arith, h, lookup-retain_others-none id k m)

-- The sessions that a publish leaves hold the new one, which a stop of its source removes.
new_session :
    (session id : ℕ) (m : IdMap ℕ)
    → (lookup (insert m session id) session ≡ some id)
      × (lookup (retain_others id (insert m session id)) session ≡ none)
unfolding insert retain_others
new_session session id m =
    let gone : lookup (remove m session) session ≡ none =
      ground (arith, lookup-remove m session session, ==_refl session) in
    (
      lookup-insert m session id session ∙ ground (arith, ==_refl session),
      ground (arith, ==_refl id, lookup-retain_others-none id session (remove m session) gone),
    )

module _ (source_id old peer relay session : ℕ) (sdp : String) (s : Peers) where
  -- The close of an old peer ends the publisher that came after it. The stop of an ingest spawns the
  -- close of its peer; if a publisher is accepted before the peer reports that it is closed, the
  -- report stops the source's ingest again, and the new peer and its session are gone.
  pub stale_close_ends_publisher :
      lookup s.guest_peers source_id ≡ some old
      → let stopped = stop_ingest source_id persistent s in
        let again = publish_start (answered sdp peer) relay session source_id stopped in
        let reported = stop_ingest source_id persistent again.1 in
        (stopped.closing ≡ old ∷ s.closing)
        × (lookup again.1.guest_peers source_id ≡ some peer)
        × (lookup again.1.whip_sessions session ≡ some source_id)
        × (lookup reported.guest_peers source_id ≡ none)
        × (lookup reported.whip_sessions session ≡ none)
  unfolding stop_ingest publish_start start_ingest
  stale_close_ends_publisher had =
      let stopped = stop_ingest source_id persistent s in
      let sessions = retain_others source_id stopped.whip_sessions in
      let (held, gone) = new_session session source_id sessions in
      (
        rw had refl,
        lookup-insert stopped.guest_peers source_id peer source_id
            ∙ ground (arith, ==_refl source_id),
        held,
        lookup-remove (insert stopped.guest_peers source_id peer) source_id source_id
            ∙ ground (arith, ==_refl source_id),
        gone,
      )

-- Two publishers can be accepted on one source: when the checks of both run before either has its
-- peer, both are answered 201, and the second takes the place and the session of the first.
pub racing_publishes :
    (like : Like) (header header' : Option String) (source_id peer peer' relay session session' : ℕ)
    (sdp sdp' : String) (s : Peers)
    → publish_check like header s ≡ inr source_id
    → publish_check like header' s ≡ inr source_id
    → session ≢ session'
    → let first = publish_start (answered sdp peer) relay session source_id s in
      let second = publish_start (answered sdp' peer') relay session' source_id first.1 in
      ((location : String) × (first.0 ≡ created location sdp))
      × ((location : String) × (second.0 ≡ created location sdp'))
      × (lookup second.1.guest_peers source_id ≡ some peer')
      × (lookup second.1.whip_sessions session' ≡ some source_id)
      × (lookup second.1.whip_sessions session ≡ none)
unfolding publish_start start_ingest
racing_publishes like header header' source_id peer peer' relay session session' sdp sdp' s one two
      ne =
    let first = publish_start (answered sdp peer) relay session source_id s in
    let sessions = retain_others source_id s.whip_sessions in
    let kept = retain_others source_id (insert sessions session source_id) in
    (
      (_, refl),
      (_, refl),
      lookup-insert first.1.guest_peers source_id peer' source_id
          ∙ ground (arith, ==_refl source_id),
      (new_session session' source_id kept).0,
      lookup-insert kept session' source_id session
          ∙ ground (arith, ne, (new_session session source_id sessions).1),
    )
