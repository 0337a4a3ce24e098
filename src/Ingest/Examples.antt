-- ===== src/Ingest/Examples.antt =====
-- Tests and instances for the readers and the ports.
use shed.Prelude.{
  ltb, ◌==◌, if◌then◌else◌, Bool-cases, length, any, ℕ, zero, suc, ◌+◌, ◌≤◌, ◌<◌, ◌≡◌, refl, inl,
  inr, false, none, some, List, [], ◌∷◌, ◌++◌, arith,
}
use shed.Prelude.Maps.{lookup}
use shed.Types.{no_headers, live, source_state}
use shed.Flv.{flv_header, flv_tag}
use shed.Flv.Demux.{Tag, read_stream}
use shed.Ingest.{Ingest, publish_all, read_flv_output, assign_srt_port, first_free}
use shed.Ingest.Cache.{video_of, audio_of, publish_all_caches}
use shed.Ingest.Relay.{relay, read_flv_output_relays}
use shed.Ingest.Ports.{IsTaken, assigned_port_is_free}

abbrev silent : Ingest
silent = record {
  sequence_headers = [];
  source_states = [];
  ws = [];
  relayed = [];
  media_relays = [];
  srt_listeners = [];
}

-- A video header, then a keyframe.
abbrev header_tag : Tag
header_tag = record { tag_type = 9; body = 0x17 ∷ 0 ∷ []; raw = 9 ∷ 1 ∷ [] }

abbrev key_tag : Tag
key_tag = record { tag_type = 9; body = 0x17 ∷ 1 ∷ []; raw = 9 ∷ 2 ∷ [] }

publish_all_caches_example :
    (video_of (lookup (publish_all 7 0 (header_tag ∷ key_tag ∷ []) silent).sequence_headers 7)
      ≡ some (9 ∷ 1 ∷ []))
    × (audio_of (lookup (publish_all 7 0 (header_tag ∷ key_tag ∷ []) silent).sequence_headers 7)
        ≡ none)
unfolding lookup
publish_all_caches_example = publish_all_caches 7 0 (header_tag ∷ key_tag ∷ []) silent

-- The source has a header already.
abbrev primed : Ingest
primed = record silent { sequence_headers = (7, no_headers) ∷ [] }

abbrev one_tag : List ℕ
one_tag = flv_header ++ flv_tag 8 (0xAF ∷ 0 ∷ []) 0

read_flv_output_relays_example :
    let tags = read_stream one_tag in
    ((read_flv_output 7 one_tag silent).relayed ≡ relay tags [])
    × ((read_flv_output 7 one_tag silent).ws
        ≡ (if ltb 0 (length tags) then source_state 7 live ∷ [] else []))
read_flv_output_relays_example = read_flv_output_relays 7 one_tag silent

second_port : assign_srt_port 9000 [] (9000 ∷ []) ≡ 9001
unfolding assign_srt_port first_free
second_port = refl

assigned_port_is_free_example :
    let port = assign_srt_port 9000 [] (9000 ∷ []) in
    (9000 ≤ port) × (port ≤ 9005) × (any (λ q. q == port) (9000 ∷ []) ≡ false)
assigned_port_is_free_example =
    assigned_port_is_free 9000 [] (9000 ∷ []) (omega arith) (omega arith) 9005 (omega arith)
      (omega arith) refl

-- `n` ports from a first one.
abbrev ports_from : ℕ → ℕ → List ℕ
ports_from p zero = []
ports_from p (suc n) = p ∷ ports_from (suc p) n

ports_from-IsTaken : (p n q : ℕ) → p ≤ q → q < p + n → IsTaken (ports_from p n) q
ports_from-IsTaken p zero q a b = absurd (omega arith)
ports_from-IsTaken p (suc n) q a b = elim (Bool-cases (p == q)) [
  | inl same ↦ rw same refl
  | inr other ↦ rw other (ports_from-IsTaken (suc p) n q (ground (arith, other)) (omega arith))
]
