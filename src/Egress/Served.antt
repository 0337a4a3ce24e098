-- ===== src/Egress/Served.antt =====
-- Which destinations the manager feeds: crates/api/src/egress.rs.
use shed.Prelude.{
  ◌==◌, if◌then◌else◌, Bool-cases, Option-cases, or_else, ℕ, String, ◌≡◌, refl, ap, ◌∙◌, inl, inr,
  false, Option, none, some, List, [], ◌∷◌, arith, ◌>>=◌, or_else_assoc,
}
use shed.Prelude.Maps.{IdMap, lookup, lookup-insert}
use shed.Types.{Destination, SequenceHeaders}
use shed.Output.{OutputConfig}
use shed.Egress.{
  Spawn, running, EgressProcess, EgressManager, RestartParams, url_of, process_for, connect,
  attempt, start_all, start, stop, restart, set_output_config, is_running, egress_restart_for,
}

-- The process that a list of destinations gives an id: the last one's that is served.
abbrev pub process_of :
    Option OutputConfig → Option SequenceHeaders → Destination → Option EgressProcess
process_of cfg seq dest = url_of dest >>= (λ url. some (process_for cfg seq dest url))

abbrev pub served :
    Option OutputConfig → Option SequenceHeaders → List Destination → ℕ → Option EgressProcess
served cfg seq [] id = none
served cfg seq (dest ∷ destinations) id =
    or_else (served cfg seq destinations id)
      (if dest.id == id then process_of cfg seq dest else none)

-- ffmpeg can be started.
abbrev pub Spawns : Spawn → Type 0
Spawns spawn = (args : List String) → spawn args ≡ running

module _ (spawn : Spawn) (cfg : Option OutputConfig) (seq : Option SequenceHeaders) where
  connect-served :
      (dest : Destination) (process : EgressProcess) (m : EgressManager) (id : ℕ)
      → lookup (connect dest process m).processes id
        ≡ or_else (if dest.id == id then some process else none) (lookup m.processes id)
  unfolding connect
  connect-served dest process m id = ground (arith, lookup-insert m.processes dest.id process id)

  attempt_served :
      (dest : Destination) (m : EgressManager)
      → Spawns spawn
      → ((attempt spawn cfg seq dest m).0 ≡ none)
        × ((id : ℕ)
            → lookup (attempt spawn cfg seq dest m).1.processes id
              ≡ or_else
                  (if dest.id == id then process_of cfg seq dest else none)
                  (lookup m.processes id))
  unfolding attempt
  attempt_served dest m spawns = elim (Option-cases (url_of dest)) [
    | inl e ↦ rw (attempt, e) (refl, λ id. ground arith)
    | inr (url, e) ↦
        let process = process_for cfg seq dest url in
        rw (attempt, e, spawns process.args) (refl, λ id. connect-served dest process m id)
  ]

  pub start_all_serves :
      (destinations : List Destination) (m : EgressManager)
      → Spawns spawn
      → ((start_all spawn cfg seq destinations m).0 ≡ none)
        × ((id : ℕ)
            → lookup (start_all spawn cfg seq destinations m).1.processes id
              ≡ or_else (served cfg seq destinations id) (lookup m.processes id))
  unfolding start_all
  start_all_serves [] m spawns = (refl, λ id. refl)
  start_all_serves (dest ∷ destinations) m spawns =
      let (ok, turn) = attempt_served dest m spawns in
      let (all_ok, ih) = start_all_serves destinations (attempt spawn cfg seq dest m).1 spawns in
      rw (start_all, ok)
        (
          all_ok,
          λ id.
              ih id
              ∙ (ap (or_else (served cfg seq destinations id)) (turn id)
                  ∙ or_else_assoc (served cfg seq destinations id)
                      (if dest.id == id then process_of cfg seq dest else none)
                      (lookup m.processes id)),
        )

-- After `start` every id is fed for the last destination with it that is enabled and of a kind that
-- is pushed, with the encoder set as configured and the source's headers, an id without such a
-- destination keeps what it had, and there is no error, where ffmpeg starts.
pub start_serves :
    (spawn : Spawn) (now : ℕ) (params : RestartParams) (seq : Option SequenceHeaders)
    (m : EgressManager)
    → Spawns spawn
    → ((start spawn now params seq m).0 ≡ none)
      × ((id : ℕ)
          → lookup (start spawn now params seq m).1.processes id
            ≡ or_else
                (served params.output_config seq params.destinations id)
                (lookup m.processes id))
unfolding start
start_serves spawn now params seq m spawns =
    start_all_serves spawn params.output_config seq params.destinations
      (record m { bytes_sent = 0; started_at = some now; restart_params = some params }) spawns

or_else-none {ℓ} : {A : Type ℓ} (a : Option A) → or_else a none ≡ a
or_else-none none = refl
or_else-none (some a) = refl

restart_serves :
    (spawn : Spawn) (now : ℕ) (params : RestartParams) (seq : Option SequenceHeaders)
    (m : EgressManager)
    → Spawns spawn
    → m.restart_params ≡ some params
    → (id : ℕ)
    → lookup (restart spawn now seq m).processes id
      ≡ served params.output_config seq params.destinations id
unfolding restart stop lookup
restart_serves spawn now params seq m spawns last id =
    let (ok, all) = start_serves spawn now params seq (stop m) spawns in
    rw (restart, last)
      (all id ∙ or_else-none (served params.output_config seq params.destinations id))

-- A restart after the output configuration is set, as on a change of it while live: whatever ran
-- before, exactly the destinations of the last start are fed, each with the new configuration and
-- the given headers, where ffmpeg starts.
pub restart_follows_config :
    (spawn : Spawn) (now : ℕ) (params : RestartParams) (cfg : Option OutputConfig)
    (seq : Option SequenceHeaders) (m : EgressManager)
    → Spawns spawn
    → m.restart_params ≡ some params
    → (id : ℕ)
    → lookup (restart spawn now seq (set_output_config cfg m)).processes id
      ≡ served cfg seq params.destinations id
unfolding set_output_config
restart_follows_config spawn now params cfg seq m spawns last id =
    restart_serves spawn now (record params { output_config = cfg }) seq (set_output_config cfg m)
      spawns (rw (set_output_config, last) refl) id

processes_nil : (m : EgressManager) → is_running m ≡ false → m.processes ≡ []
unfolding is_running
processes_nil m h = ground arith

-- A restart for a source, as the failover and the playout ask for it, never starts an egress that is
-- stopped, and a running one comes back with exactly the destinations of the last start, each primed
-- with that source's headers, where ffmpeg starts.
pub egress_restart_for_primes :
    (spawn : Spawn) (now : ℕ) (params : RestartParams) (headers : IdMap SequenceHeaders)
    (source : ℕ) (m : EgressManager)
    → Spawns spawn
    → m.restart_params ≡ some params
    → (id : ℕ)
    → lookup (egress_restart_for spawn now headers source m).processes id ≡ (
        if is_running m
        then served params.output_config (lookup headers source) params.destinations id
        else none)
unfolding egress_restart_for lookup
egress_restart_for_primes spawn now params headers source m spawns last id =
    elim (Bool-cases (is_running m)) [
      | inl e ↦
          rw (egress_restart_for, e)
            (restart_serves spawn now params (lookup headers source) m spawns last id)
      | inr e ↦ rw (egress_restart_for, e, processes_nil m e) refl
    ]
