-- ===== src/Whip/Tidy.antt =====
-- What holds of the sessions and the processes at every moment: crates/api/src/routes/whip.rs and
-- crates/api/src/webrtc_ingest.rs.
use shed.Prelude.{
  ◌==◌, Option-cases, is_some, any, find?, ℕ, String, ◌≡◌, refl, ap, ◌∙◌, inl, inr, Bool, true,
  false, Option, none, some, List, [], ◌∷◌, arith, if_cases, Sum-cases, string_eq,
}
use shed.Prelude.Maps.{IdMap, lookup, insert, remove, lookup-insert}
use shed.WebRtc.{
  IngestKind, persistent, guest, Peers, Negotiation, rejected, failed, answered, retain_others,
  start_ingest, stop_ingest, video_track, read_tag,
}
use shed.WebRtc.Teardown.{
  occupied, has_child, occupied-stop_ingest, has_child-stop_ingest, watchdog_cases,
  video_track_cases,
}
use shed.Whip.{
  Like, Op, op_publish, op_teardown, op_guest_whip, op_peer_lost, op_watchdog, op_video_track,
  op_tag, publish_check, publish_start, publish, teardown, guest_whip, guest_start, guest_joining,
  step, run,
}

-- A map of sessions names no source twice.
abbrev pub names : ℕ → IdMap ℕ → Bool
names source_id sessions = any (λ e. e.1 == source_id) sessions

abbrev pub NoTwo : IdMap ℕ → Type 0
NoTwo [] = Unit
NoTwo ((session, source_id) ∷ sessions) = (names source_id sessions ≡ false) × NoTwo sessions

-- No source has two sessions, and no ffmpeg process is kept for a source without a peer.
pub record IsTidy (s : Peers) : Type 0 where
  pub one_session : NoTwo s.whip_sessions
  pub no_orphan : (j : ℕ) → has_child s j ≡ true → occupied s j ≡ true

names-retain_others_self : (id : ℕ) (m : IdMap ℕ) → names id (retain_others id m) ≡ false
unfolding retain_others
names-retain_others_self id [] = refl
names-retain_others_self id ((k, sid) ∷ m) = ground (arith, names-retain_others_self id m)

names-retain_others :
    (id j : ℕ) (m : IdMap ℕ) → names j m ≡ false → names j (retain_others id m) ≡ false
unfolding retain_others
names-retain_others id j [] h = refl
names-retain_others id j ((k, sid) ∷ m) h = ground (arith, h, names-retain_others id j m)

names-remove : (k j : ℕ) (m : IdMap ℕ) → names j m ≡ false → names j (remove m k) ≡ false
unfolding remove
names-remove k j [] h = refl
names-remove k j ((i, sid) ∷ m) h = ground (arith, h, names-remove k j m)

retain_others-NoTwo : (id : ℕ) (m : IdMap ℕ) → NoTwo m → NoTwo (retain_others id m)
unfolding retain_others
retain_others-NoTwo id [] h = tt
retain_others-NoTwo id ((k, sid) ∷ m) h =
    if_cases NoTwo (sid == id) (retain_others id m) ((k, sid) ∷ retain_others id m)
      (λ e. retain_others-NoTwo id m h.1)
      (λ e. (names-retain_others id sid m h.0, retain_others-NoTwo id m h.1))

remove-NoTwo : (k : ℕ) (m : IdMap ℕ) → NoTwo m → NoTwo (remove m k)
unfolding remove
remove-NoTwo k [] h = tt
remove-NoTwo k ((i, sid) ∷ m) h =
    if_cases NoTwo (i == k) (remove m k) ((i, sid) ∷ remove m k) (λ e. remove-NoTwo k m h.1)
      (λ e. (names-remove k sid m h.0, remove-NoTwo k m h.1))

insert-NoTwo :
    (session id : ℕ) (m : IdMap ℕ) → NoTwo m → NoTwo (insert (retain_others id m) session id)
unfolding insert
insert-NoTwo session id m h = (
  names-remove session id (retain_others id m) (names-retain_others_self id m),
  remove-NoTwo session (retain_others id m) (retain_others-NoTwo id m h),
)

stop_ingest-IsTidy :
    (source_id : ℕ) (kind : IngestKind) (s : Peers)
    → IsTidy s
    → IsTidy (stop_ingest source_id kind s)
unfolding stop_ingest
stop_ingest-IsTidy source_id kind s h = record {
  one_session = retain_others-NoTwo source_id s.whip_sessions h.one_session;
  no_orphan = λ j c. ground (
    arith,
    c,
    has_child-stop_ingest source_id kind s j,
    occupied-stop_ingest source_id kind s j,
    h.no_orphan j,
  );
}

started-IsTidy :
    (negotiation : Negotiation) (relay source_id : ℕ) (s : Peers)
    → IsTidy s
    → IsTidy (start_ingest negotiation relay source_id s).1
unfolding start_ingest occupied has_child
started-IsTidy (rejected e) relay source_id s h = h
started-IsTidy (failed e) relay source_id s h = record {
  one_session = h.one_session;
  no_orphan = h.no_orphan;
}
started-IsTidy (answered sdp peer) relay source_id s h = record {
  one_session = h.one_session;
  no_orphan = λ j c. ground (arith, h.no_orphan j c, lookup-insert s.guest_peers source_id peer j);
}

publish_start-IsTidy :
    (negotiation : Negotiation) (relay session source_id : ℕ) (s : Peers)
    → IsTidy s
    → IsTidy (publish_start negotiation relay session source_id s).1
unfolding publish_start start_ingest occupied has_child
publish_start-IsTidy (rejected e) relay session source_id s h =
    stop_ingest-IsTidy source_id persistent s h
publish_start-IsTidy (failed e) relay session source_id s h =
    stop_ingest-IsTidy source_id persistent (start_ingest (failed e) relay source_id s).1
      (started-IsTidy (failed e) relay source_id s h)
publish_start-IsTidy (answered sdp peer) relay session source_id s h = record {
  one_session = insert-NoTwo session source_id s.whip_sessions h.one_session;
  no_orphan = (started-IsTidy (answered sdp peer) relay source_id s h).no_orphan;
}

publish-IsTidy :
    (like : Like) (header : Option String) (negotiation : Negotiation) (relay session : ℕ)
    (s : Peers)
    → IsTidy s
    → IsTidy (publish like header negotiation relay session s).1
unfolding publish
publish-IsTidy like header negotiation relay session s h =
    elim (Sum-cases (publish_check like header s)) [
      | inl (code, e) ↦ rw (publish, e) h
      | inr (source_id, e) ↦
          rw (publish, e) (publish_start-IsTidy negotiation relay session source_id s h)
    ]

teardown-IsTidy : (session : Option ℕ) (s : Peers) → IsTidy s → IsTidy (teardown session s).1
unfolding teardown has_child occupied
teardown-IsTidy none s h = h
teardown-IsTidy (some id) s h =
    let removed : IsTidy (record s { whip_sessions = remove s.whip_sessions id }) = record {
      one_session = remove-NoTwo id s.whip_sessions h.one_session;
      no_orphan = h.no_orphan;
    } in
    elim (Option-cases (lookup s.whip_sessions id)) [
      | inl e ↦ rw (teardown, e) removed
      | inr (source_id, e) ↦
          rw (teardown, e)
            (stop_ingest-IsTidy source_id persistent
              (record s { whip_sessions = remove s.whip_sessions id }) removed)
    ]

guest_start-IsTidy :
    (token : String) (negotiation : Negotiation) (relay source_id : ℕ) (s : Peers)
    → IsTidy s
    → IsTidy (guest_start token negotiation relay source_id s).1
unfolding guest_start start_ingest
guest_start-IsTidy token (rejected e) relay source_id s h = stop_ingest-IsTidy source_id guest s h
guest_start-IsTidy token (failed e) relay source_id s h =
    stop_ingest-IsTidy source_id guest (start_ingest (failed e) relay source_id s).1
      (started-IsTidy (failed e) relay source_id s h)
guest_start-IsTidy token (answered sdp peer) relay source_id s h =
    started-IsTidy (answered sdp peer) relay source_id s h

guest_whip-IsTidy :
    (token : String) (negotiation : Negotiation) (relay source_id : ℕ) (s : Peers)
    → IsTidy s
    → IsTidy (guest_whip token negotiation relay source_id s).1
unfolding guest_whip occupied has_child
guest_whip-IsTidy token negotiation relay source_id s h =
    elim (Option-cases (find? (λ g. string_eq g.token token) s.guests)) [
      | inl e ↦ rw (guest_whip, e) h
      | inr (g, e) ↦
          rw (guest_whip, e)
            (guest_start-IsTidy token negotiation relay source_id
              (guest_joining token g source_id s)
              (record { one_session = h.one_session; no_orphan = h.no_orphan }))
    ]

video_track-IsTidy :
    (source_id : ℕ) (kind : IngestKind) (child : Option ℕ) (s : Peers)
    → IsTidy s
    → IsTidy (video_track source_id kind child s)
unfolding occupied has_child
video_track-IsTidy source_id kind child s h = elim (video_track_cases source_id kind child s) [
  | inl (pid, has, peers, sessions, children) ↦ record {
    one_session = rw sessions h.one_session;
    no_orphan = λ j c.
        let grown : is_some (lookup (insert s.source_normalizers source_id pid) j) ≡ true =
          rw children at c in
        ap (λ m. is_some (lookup m j)) peers
        ∙ ground
            (arith, grown, has, h.no_orphan j, lookup-insert s.source_normalizers source_id pid j);
  }
  | inr e ↦ rw e (
      stop_ingest-IsTidy source_id kind (record s { sdp_files = source_id ∷ s.sdp_files })
        (record { one_session = h.one_session; no_orphan = h.no_orphan }))
]

step-IsTidy : (like : Like) (op : Op) (s : Peers) → IsTidy s → IsTidy (step like op s).1
unfolding step read_tag occupied has_child
step-IsTidy like (op_publish header negotiation relay session) s h =
    publish-IsTidy like header negotiation relay session s h
step-IsTidy like (op_teardown session) s h = teardown-IsTidy session s h
step-IsTidy like (op_guest_whip token negotiation relay source_id) s h =
    guest_whip-IsTidy token negotiation relay source_id s h
step-IsTidy like (op_peer_lost source_id kind) s h = stop_ingest-IsTidy source_id kind s h
step-IsTidy like (op_watchdog source_id kind) s h = elim (watchdog_cases source_id kind s) [
  | inl e ↦ rw e h
  | inr e ↦ rw e (stop_ingest-IsTidy source_id kind s h)
]
step-IsTidy like (op_video_track source_id kind child) s h =
    video_track-IsTidy source_id kind child s h
step-IsTidy like (op_tag source_id kind frame_count tag) s h = record {
  one_session = h.one_session;
  no_orphan = h.no_orphan;
}

-- After any history of requests, callbacks, watchdogs, tracks and tags no source has two sessions,
-- and no ffmpeg process is kept for a source whose peer is gone.
pub run-IsTidy :
    (like : Like) (history : List Op) (s : Peers) → IsTidy s → IsTidy (run like history s)
unfolding run
run-IsTidy like [] s h = h
run-IsTidy like (op ∷ history) s h =
    run-IsTidy like history (step like op s).1 (step-IsTidy like op s h)
