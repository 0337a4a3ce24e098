-- ===== src/Scene/Active.antt =====
-- Which compositors run: crates/api/src/scene_compositor.rs and routes/scenes.rs, `activate`.
use shed.Prelude.{
  ◌==◌, if◌then◌else◌, is_some, unwrap_or, any, ℕ, String, ◌≡◌, refl, sym, ap, ◌∙◌, inl, inr, true,
  false, Option, none, some, List, [], ◌∷◌, map, arith, Sum-cases,
}
use shed.Prelude.Maps.{IdMap, lookup, remove, lookup-remove, lookup-insert}
use shed.WebRtc.{with_relay}
use shed.Media.{Media, drop_compositor, forget_relay}
use mathlib.Core.Path.{subst}
use shed.Types.MuxshedError.{MuxshedError}
use shed.Scene.{
  Backstage, Mixer, stop_scene_compositor, stop_each, stop_all_compositors, install_compositor,
  run_compositor, compose, start_scene_compositor, switched, activate,
}
use shed.Scene.Filters.{compositor_args, CompLayer, live_layers}

pub compositors-stop_scene :
    (id : ℕ) (m : Media) (j : ℕ)
    → lookup (stop_scene_compositor id m).scene_compositors j
      ≡ (if id == j then none else lookup m.scene_compositors j)
unfolding stop_scene_compositor drop_compositor
compositors-stop_scene id m j = lookup-remove m.scene_compositors id j

relays-stop_scene :
    (id : ℕ) (m : Media) (j : ℕ)
    → lookup (stop_scene_compositor id m).ingest.media_relays j
      ≡ (if id == j then none else lookup m.ingest.media_relays j)
unfolding stop_scene_compositor drop_compositor forget_relay
relays-stop_scene id m j = lookup-remove m.ingest.media_relays id j

module _ (j : ℕ) where
  compositors-stop_each :
      (ids : List ℕ) (m : Media)
      → lookup (stop_each ids m).scene_compositors j
        ≡ (if any (λ k. k == j) ids then none else lookup m.scene_compositors j)
  unfolding stop_each
  compositors-stop_each [] m = refl
  compositors-stop_each (id ∷ ids) m =
      ground (
        arith,
        compositors-stop_each ids (stop_scene_compositor id m),
        compositors-stop_scene id m j,
      )

  relays-stop_each :
      (ids : List ℕ) (m : Media)
      → lookup (stop_each ids m).ingest.media_relays j
        ≡ (if any (λ k. k == j) ids then none else lookup m.ingest.media_relays j)
  unfolding stop_each
  relays-stop_each [] m = refl
  relays-stop_each (id ∷ ids) m =
      ground (arith, relays-stop_each ids (stop_scene_compositor id m), relays-stop_scene id m j)

  key_of :
      (compositors : IdMap ℕ)
      → any (λ k. k == j) (map (λ e. e.0) compositors) ≡ is_some (lookup compositors j)
  unfolding lookup
  key_of [] = refl
  key_of ((k, pid) ∷ compositors) = ground (arith, key_of compositors)

  pub compositors-stop_all :
      (m : Media) → lookup (stop_all_compositors m).scene_compositors j ≡ none
  unfolding stop_all_compositors
  compositors-stop_all m = ground (
    arith,
    compositors-stop_each (map (λ e. e.0) m.scene_compositors) m,
    key_of m.scene_compositors,
  )

  pub relays-stop_all :
      (m : Media)
      → lookup (stop_all_compositors m).ingest.media_relays j
        ≡ (if is_some (lookup m.scene_compositors j) then none else lookup m.ingest.media_relays j)
  unfolding stop_all_compositors
  relays-stop_all m =
      ground
        (arith, relays-stop_each (map (λ e. e.0) m.scene_compositors) m, key_of m.scene_compositors)

-- A start of a scene's compositor, by its result: it runs and the scene has a relay, and other scenes are
-- left; or no compositor is started.
abbrev pub Composed : ℕ → Media → Option String × Media → Type 0
Composed id m (some e, m') =
    (m'.scene_compositors ≡ m.scene_compositors)
    × ((j : ℕ)
        → (id == j) ≡ false
        → lookup m'.ingest.media_relays j ≡ lookup m.ingest.media_relays j)
Composed id m (none, m') =
    (pid : ℕ) × ((j : ℕ)
      → lookup m'.scene_compositors j
        ≡ (if id == j then some pid else lookup m.scene_compositors j))
    × (is_some (lookup m'.ingest.media_relays id) ≡ true)

relays-with_relay :
    (id relay : ℕ) (m : Media) (j : ℕ)
    → (id == j) ≡ false
    → lookup (with_relay id relay m.ingest).media_relays j ≡ lookup m.ingest.media_relays j
unfolding with_relay
relays-with_relay id relay m j h = ground (
  arith,
  h,
  lookup-insert m.ingest.media_relays id (unwrap_or (lookup m.ingest.media_relays id) relay) j,
)

relay-with_relay :
    (id relay : ℕ) (m : Media)
    → is_some (lookup (with_relay id relay m.ingest).media_relays id) ≡ true
unfolding with_relay
relay-with_relay id relay m = ground (
  arith,
  lookup-insert m.ingest.media_relays id (unwrap_or (lookup m.ingest.media_relays id) relay) id,
)

run_compositor-Composed :
    (b : Backstage) (id : ℕ) (layers : List CompLayer) (m : Media)
    → Composed id m (run_compositor b id layers m)
unfolding run_compositor install_compositor drop_compositor
run_compositor-Composed b id layers m = elim (Sum-cases (b.listen layers)) [
  | inl (e, h) ↦ rw (run_compositor, h) (refl, relays-with_relay id b.relay m)
  | inr (ports, h) ↦ elim (Sum-cases (b.launch (compositor_args b.floats b.config ports layers))) [
    | inl (e, q) ↦ rw (run_compositor, h, q) (refl, relays-with_relay id b.relay m)
    | inr (pid, q) ↦
        rw (run_compositor, h, q)
          (
            pid,
            λ j. ground (
              arith,
              lookup-insert (remove m.scene_compositors id) id pid j,
              lookup-remove m.scene_compositors id j,
            ),
            relay-with_relay id b.relay m,
          )
  ]
]

compose-Composed :
    (b : Backstage) (id : ℕ) (layers : List CompLayer) (m : Media)
    → Composed id m (compose b id layers m)
compose-Composed b id [] m = (refl, λ j h. refl)
compose-Composed b id (layer ∷ layers) m = run_compositor-Composed b id (layer ∷ layers) m

start-Composed :
    (b : Backstage) (id : ℕ) (m : Media)
    → Composed id (stop_scene_compositor id m) (start_scene_compositor b id m)
unfolding start_scene_compositor
start-Composed b id m = elim (Sum-cases (b.rows id)) [
  | inl (e, h) ↦ rw (start_scene_compositor, h) (refl, λ j q. refl)
  | inr (rows, h) ↦
      rw (start_scene_compositor, h)
        (compose-Composed b id (live_layers b.floats (stop_scene_compositor id m) rows)
          (stop_scene_compositor id m))
]

-- What an activation of a scene that exists leaves: the scene on program, its compositor the only one
-- that runs, and its relay; or an error, no compositor at all, and the operator's choice as it was.
abbrev pub Activated : ℕ → Mixer → Option MuxshedError × Mixer → Type 0
Activated id s (some e, s') =
    (s'.program_intent ≡ s.program_intent)
    × ((j : ℕ) → lookup s'.media.scene_compositors j ≡ none)
    × ((j : ℕ)
        → (id == j) ≡ false
        → lookup s'.media.ingest.media_relays j ≡ (
            if is_some (lookup s.media.scene_compositors j)
            then none
            else lookup s.media.ingest.media_relays j))
Activated id s (none, s') =
    (s'.program_intent ≡ some id)
    × ((j : ℕ) → is_some (lookup s'.media.scene_compositors j) ≡ (id == j))
    × (is_some (lookup s'.media.ingest.media_relays id) ≡ true)

switched-Activated :
    (id : ℕ) (s : Mixer) (r : Option String × Media)
    → Composed id (stop_scene_compositor id (stop_all_compositors s.media)) r
    → Activated id s (switched id s r)
switched-Activated id s (some e, m) (compositors, relays) =
    let stopped = stop_all_compositors s.media in
    (
      refl,
      λ j.
          ap (λ c. lookup c j) compositors
          ∙ compositors-stop_scene id stopped j
          ∙ ground (arith, compositors-stop_all j s.media),
      λ j h.
          relays j h
          ∙ relays-stop_scene id stopped j
          ∙ ground (arith, h, relays-stop_all j s.media),
    )
switched-Activated id s (none, m) (pid, compositors, relay) =
    let stopped = stop_all_compositors s.media in
    (
      refl,
      λ j. ground (
        arith,
        compositors j,
        compositors-stop_scene id stopped j,
        compositors-stop_all j s.media,
      ),
      relay,
    )

-- The activation of a scene that exists stops every compositor. When it succeeds, the scene is on
-- program and has a relay, and its compositor is the only one. When it does not, none is left, the relays of
-- the scenes that ran are gone, and the program is still to be on what it was on.
pub activate-Activated :
    (b : Backstage) (id : ℕ) (s : Mixer)
    → any (λ k. k == id) s.scenes ≡ true
    → Activated id s (activate b id s)
unfolding activate
activate-Activated b id s h =
    let eq : activate b id s
        ≡ switched id s (start_scene_compositor b id (stop_all_compositors s.media)) =
      rw (activate, h) refl in
    subst (Activated id s) (sym eq) (
      switched-Activated id s (start_scene_compositor b id (stop_all_compositors s.media))
        (start-Composed b id (stop_all_compositors s.media)))

-- A refused activation takes the running scene down with it: the operator is told that the other
-- scene cannot be activated, and the program stays on a scene that has no compositor and no relay any more.
pub refused_activation_ends_program :
    (b : Backstage) (id old : ℕ) (e : MuxshedError) (s : Mixer)
    → any (λ k. k == id) s.scenes ≡ true
    → (id == old) ≡ false
    → s.program_intent ≡ some old
    → is_some (lookup s.media.scene_compositors old) ≡ true
    → (activate b id s).0 ≡ some e
    → let s' = (activate b id s).1 in
      (s'.program_intent ≡ some old)
      × (lookup s'.media.scene_compositors old ≡ none)
      × (lookup s'.media.ingest.media_relays old ≡ none)
refused_activation_ends_program b id old e s exists other on_program runs refused =
    let s' = (activate b id s).1 in
    let (intent, compositors, relays) =
      subst (λ r. Activated id s (r, s')) refused (activate-Activated b id s exists) in
    (intent ∙ on_program, compositors old, relays old other ∙ ground (arith, runs))
