-- ===== src/Whip/Publisher.antt =====
-- One publisher for each source: crates/api/src/routes/whip.rs, crates/api/src/routes/guests.rs and
-- crates/api/src/webrtc_ingest.rs against the contract that they implement.
use shed.Prelude.{
  ◌==◌, if◌then◌else◌, Option-cases, is_some, unwrap_or, find?, ℕ, String, ◌≡◌, refl, ap, ◌∙◌, inl,
  inr, Bool, true, false, Option, none, some, List, [], ◌∷◌, arith, ◌>>=◌, Sum-cases, string_eq,
}
use shed.Prelude.Maps.{lookup, remove, lookup-insert}
use shed.WebRtc.{persistent, guest, Peers, Negotiation, rejected, failed, answered, start_ingest}
use shed.WebRtc.Teardown.{
  occupied, occupied-stop_ingest, watchdog_cases, video_track_cases, occupied-read_tag,
}
use shed.Whip.{
  Like, Response, created, status, Op, op_publish, op_teardown, op_guest_whip, op_peer_lost,
  op_watchdog, op_video_track, op_tag, publish_check, publish_start, publish, teardown, guest_whip,
  guest_start, guest_joining, step, run, responses, resolve_source, bearer_token,
}

-- What a response says of the sources that are taken. A publisher is accepted only on a source that
-- is free, and takes it; nothing else takes one, and at most one is freed at a time.
pub data Allowed (taken taken' : ℕ → Bool) : Option Response → Type 0 where
  joins :
      (location sdp : String) (source_id : ℕ)
      → taken source_id ≡ false
      → ((j : ℕ) → taken' j ≡ (if source_id == j then true else taken j))
      → Allowed taken taken' (some (created location sdp))
  leaves :
      (code : ℕ) (source_id : ℕ)
      → ((j : ℕ) → taken' j ≡ (if source_id == j then false else taken j))
      → Allowed taken taken' (some (status code))
  stays : (code : ℕ) → ((j : ℕ) → taken' j ≡ taken j) → Allowed taken taken' (some (status code))
  drops :
      (source_id : ℕ)
      → ((j : ℕ) → taken' j ≡ (if source_id == j then false else taken j))
      → Allowed taken taken' none
  idles : ((j : ℕ) → taken' j ≡ taken j) → Allowed taken taken' none

-- The contract over a list of responses.
pub data Contract : (taken taken' : ℕ → Bool) → List (Option Response) → Type 0 where
  done : {taken : ℕ → Bool} → Contract taken taken []
  next :
      {taken mid taken' : ℕ → Bool} {r : Option Response} {rs : List (Option Response)}
      → Allowed taken mid r
      → Contract mid taken' rs
      → Contract taken taken' (r ∷ rs)

-- The id of a guest's source is new.
abbrev pub IsFresh : Op → Peers → Type 0
IsFresh (op_guest_whip token negotiation relay source_id) s = occupied s source_id ≡ false
IsFresh _ s = Unit

abbrev pub AllFresh : Like → List Op → Peers → Type 0
AllFresh like [] s = Unit
AllFresh like (op ∷ history) s = IsFresh op s × AllFresh like history (step like op s).1

started_occupied :
    (sdp : String) (peer relay source_id : ℕ) (s : Peers) (j : ℕ)
    → occupied (start_ingest (answered sdp peer) relay source_id s).1 j
      ≡ (if source_id == j then true else occupied s j)
unfolding occupied start_ingest
started_occupied sdp peer relay source_id s j =
    ground (arith, lookup-insert s.guest_peers source_id peer j)

publish_start-Allowed :
    (negotiation : Negotiation) (relay session source_id : ℕ) (s : Peers)
    → occupied s source_id ≡ false
    → Allowed
        (occupied s)
        (occupied (publish_start negotiation relay session source_id s).1)
        (some (publish_start negotiation relay session source_id s).0)
unfolding publish_start start_ingest occupied
publish_start-Allowed (rejected e) relay session source_id s free =
    leaves 400 source_id (occupied-stop_ingest source_id persistent s)
publish_start-Allowed (failed e) relay session source_id s free =
    leaves 400 source_id
      (occupied-stop_ingest source_id persistent (start_ingest (failed e) relay source_id s).1)
publish_start-Allowed (answered sdp peer) relay session source_id s free =
    joins _ sdp source_id free (started_occupied sdp peer relay source_id s)

check_free :
    (like : Like) (header : Option String) (s : Peers) (source_id : ℕ)
    → publish_check like header s ≡ inr source_id
    → occupied s source_id ≡ false
unfolding publish_check occupied
check_free like header s source_id h =
    elim (Option-cases (bearer_token header >>= (λ token. resolve_source like token s))) [
      | inl e ↦ absurd (ground (arith, h, e))
      | inr (id, e) ↦ ground (arith, h, e)
    ]

publish-Allowed :
    (like : Like) (header : Option String) (negotiation : Negotiation) (relay session : ℕ)
    (s : Peers)
    → Allowed
        (occupied s)
        (occupied (publish like header negotiation relay session s).1)
        (some (publish like header negotiation relay session s).0)
unfolding publish
publish-Allowed like header negotiation relay session s =
    elim (Sum-cases (publish_check like header s)) [
      | inl (code, e) ↦ rw (publish, e) (stays code (λ j. refl))
      | inr (source_id, e) ↦
          rw (publish, e)
            (publish_start-Allowed negotiation relay session source_id s
              (check_free like header s source_id e))
    ]

teardown-Allowed :
    (session : Option ℕ) (s : Peers)
    → Allowed (occupied s) (occupied (teardown session s).1) (some (teardown session s).0)
unfolding teardown occupied
teardown-Allowed session s = elim (Option-cases (session >>= lookup s.whip_sessions)) [
  | inl e ↦ rw (teardown, e) (stays 204 (λ j. refl))
  | inr (source_id, e) ↦
      rw (teardown, e)
        (leaves 204 source_id (
          occupied-stop_ingest source_id persistent
            (record s { whip_sessions = remove s.whip_sessions (unwrap_or session 0) })))
]

guest_start-Allowed :
    (token : String) (negotiation : Negotiation) (relay source_id : ℕ) (s : Peers)
    → occupied s source_id ≡ false
    → Allowed
        (occupied s)
        (occupied (guest_start token negotiation relay source_id s).1)
        (some (guest_start token negotiation relay source_id s).0)
unfolding guest_start start_ingest occupied
guest_start-Allowed token (rejected e) relay source_id s free =
    leaves 400 source_id (occupied-stop_ingest source_id guest s)
guest_start-Allowed token (failed e) relay source_id s free =
    leaves 400 source_id
      (occupied-stop_ingest source_id guest (start_ingest (failed e) relay source_id s).1)
guest_start-Allowed token (answered sdp peer) relay source_id s free =
    joins _ sdp source_id free (started_occupied sdp peer relay source_id s)

guest_whip-Allowed :
    (token : String) (negotiation : Negotiation) (relay source_id : ℕ) (s : Peers)
    → occupied s source_id ≡ false
    → Allowed
        (occupied s)
        (occupied (guest_whip token negotiation relay source_id s).1)
        (some (guest_whip token negotiation relay source_id s).0)
unfolding guest_whip occupied
guest_whip-Allowed token negotiation relay source_id s free =
    elim (Option-cases (find? (λ g. string_eq g.token token) s.guests)) [
      | inl e ↦ rw (guest_whip, e) (stays 404 (λ j. refl))
      | inr (g, e) ↦
          rw (guest_whip, e)
            (guest_start-Allowed token negotiation relay source_id
              (guest_joining token g source_id s) free)
    ]

pub step-Allowed :
    (like : Like) (op : Op) (s : Peers)
    → IsFresh op s
    → Allowed (occupied s) (occupied (step like op s).1) (step like op s).0
unfolding step occupied
step-Allowed like (op_publish header negotiation relay session) s fresh =
    publish-Allowed like header negotiation relay session s
step-Allowed like (op_teardown session) s fresh = teardown-Allowed session s
step-Allowed like (op_guest_whip token negotiation relay source_id) s fresh =
    guest_whip-Allowed token negotiation relay source_id s fresh
step-Allowed like (op_peer_lost source_id kind) s fresh =
    drops source_id (occupied-stop_ingest source_id kind s)
step-Allowed like (op_watchdog source_id kind) s fresh = elim (watchdog_cases source_id kind s) [
  | inl e ↦ idles (λ j. ap (λ t. occupied t j) e)
  | inr e ↦
      drops source_id (λ j. ap (λ t. occupied t j) e ∙ occupied-stop_ingest source_id kind s j)
]
step-Allowed like (op_video_track source_id kind child) s fresh =
    elim (video_track_cases source_id kind child s) [
      | inl (pid, has, peers, _, _) ↦ idles (λ j. ap (λ m. is_some (lookup m j)) peers)
      | inr e ↦ drops source_id (λ j.
          ap (λ t. occupied t j) e
          ∙ occupied-stop_ingest source_id kind (record s { sdp_files = source_id ∷ s.sdp_files })
              j)
    ]
step-Allowed like (op_tag source_id kind frame_count tag) s fresh =
    idles (occupied-read_tag source_id kind s frame_count tag)

-- Over any history of requests, callbacks, watchdogs, tracks and tags, in which a request runs from its
-- check to its peer without another event in between, the endpoints keep the contract of one publisher
-- for each source: a request is answered 201 only on a source that had no publisher,
-- which then has one, and every other answer or event takes no source and frees at most one. The id
-- of a guest's source is new when it is used.
pub run_refines :
    (like : Like) (history : List Op) (s : Peers)
    → AllFresh like history s
    → Contract (occupied s) (occupied (run like history s)) (responses like history s)
unfolding run responses
run_refines like [] s fresh = done
run_refines like (op ∷ history) s (fresh, later) =
    next (step-Allowed like op s fresh) (run_refines like history (step like op s).1 later)
