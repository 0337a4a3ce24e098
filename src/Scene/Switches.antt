-- ===== src/Scene/Switches.antt =====
-- The switches of the program: crates/api/src/routes/switching.rs.
use shed.Prelude.{
  if◌then◌else◌, Bool-cases, is_some, is_none, ℕ, ◌≡◌, refl, ap, ◌∙◌, inl, inr, true, false, none,
  some, List, [], ◌∷◌, map, arith,
}
use shed.Prelude.Maps.{lookup}
use shed.Stream.{is_live}
use shed.Media.{forget_relay, Media, drop_compositor}
use shed.Scene.{
  Mixer, stop_scene_compositor, stop_each, stop_all_compositors, source_live, cut, auto,
}
use shed.Scene.Active.{compositors-stop_all, relays-stop_all}

states-stop_each :
    (ids : List ℕ) (m : Media) → (stop_each ids m).ingest.source_states ≡ m.ingest.source_states
unfolding stop_each stop_scene_compositor drop_compositor forget_relay
states-stop_each [] m = refl
states-stop_each (id ∷ ids) m = states-stop_each ids (stop_scene_compositor id m)

-- The states of the sources outlive their compositors.
states-stop_all :
    (m : Media) → (stop_all_compositors m).ingest.source_states ≡ m.ingest.source_states
unfolding stop_all_compositors
states-stop_all m = states-stop_each (map (λ e. e.0) m.scene_compositors) m

-- A cut to a source that is live puts it on program with its relay as it was, and stops every
-- compositor; a cut to one that is not is refused and changes nothing. The source is none that a compositor makes.
pub cut-Switches :
    (id : ℕ) (s : Mixer)
    → lookup s.media.scene_compositors id ≡ none
    → let (refused, s') = cut id s in
      (is_none refused ≡ source_live s id)
      × (s'.program_intent ≡ (if source_live s id then some id else s.program_intent))
      × (lookup s'.media.ingest.media_relays id ≡ lookup s.media.ingest.media_relays id)
      × ((j : ℕ)
          → lookup s'.media.scene_compositors j
            ≡ (if source_live s id then none else lookup s.media.scene_compositors j))
unfolding cut
cut-Switches id s h = elim (Bool-cases (source_live s id)) [
  | inl e ↦
      rw (cut, e)
        (
          refl,
          refl,
          ground (arith, relays-stop_all id s.media, h),
          λ j. compositors-stop_all j s.media,
        )
  | inr e ↦ rw (cut, e) (refl, refl, refl, λ j. refl)
]

-- A cut to a scene that is on air succeeds and takes it off: it stops the scene's own compositor and
-- drops its relay, puts the scene on program, and the scene is still taken for live.
pub cut_to_scene_ends_it :
    (id : ℕ) (s : Mixer)
    → source_live s id ≡ true
    → is_some (lookup s.media.scene_compositors id) ≡ true
    → let (refused, s') = cut id s in
      (refused ≡ none)
      × (s'.program_intent ≡ some id)
      × (lookup s'.media.scene_compositors id ≡ none)
      × (lookup s'.media.ingest.media_relays id ≡ none)
      × (source_live s' id ≡ true)
unfolding cut
cut_to_scene_ends_it id s live runs =
    rw (cut, live)
      (
        refl,
        refl,
        compositors-stop_all id s.media,
        ground (arith, relays-stop_all id s.media, runs),
        ap (λ states. is_live (lookup states id)) (states-stop_all s.media) ∙ live,
      )

-- The transition puts a previewed source on program that has gone offline since, where a cut to it
-- is refused.
pub auto_ignores_liveness :
    (id : ℕ) (s : Mixer)
    → s.preview_source ≡ some id
    → source_live s id ≡ false
    → ((auto s).0 ≡ none)
      × ((auto s).1.program_intent ≡ some id)
      × (is_some (cut id s).0 ≡ true)
      × ((cut id s).1 ≡ s)
unfolding auto cut
auto_ignores_liveness id s h e = rw (auto, h, cut, e) (refl, refl, refl, refl)
