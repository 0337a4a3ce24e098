-- ===== src/Layers/Refresh.antt =====
-- What runs after an edit of a scene: crates/api/src/routes/scenes.rs, `refresh_if_active`, with
-- crates/api/src/scene_compositor.rs.
use shed.Prelude.{
  Bool-cases, Option-cases, option_eq, any, find?, ℕ, ◌≡◌, refl, sym, ap, ◌∙◌, ◌⊎◌, inl, inr, true,
  Option, none, some, List, [], ◌∷◌, map, arith, Sum-cases,
}
use mathlib.Core.Path.{subst}
use shed.Prelude.Maps.{lookup, remove, lookup-insert}
use shed.Media.{Media, drop_compositor}
use shed.Types.MuxshedError.{MuxshedError}
use shed.Scene.{
  Backstage, stop_scene_compositor, install_compositor, run_compositor, compose,
  start_scene_compositor,
}
use shed.Scene.Active.{compositors-stop_scene}
use shed.Scene.Filters.{CompLayer, LayerRow, compositor_args, live_layers}
use shed.Layers.{
  has_scene, is_row, patched, comp_row, backstage, scene_rows, refresh_if_active, add_layer,
  update_layer, write_layer, delete_layer, insert_layer,
}
use shed.Layers.Rows.{Layer, UpdateLayer, Sql, Editor}

-- The process was launched to compose these layers.
abbrev pub Composes : Backstage → List CompLayer → ℕ → Type 0
Composes b layers pid =
    (ports : List ℕ) × (b.launch (compositor_args b.floats b.config ports layers) ≡ inr pid)

module _ (b : Backstage) (id : ℕ) (pid : ℕ) where
  run-Composes :
      (layers : List CompLayer) (m : Media)
      → lookup m.scene_compositors id ≡ none
      → lookup (run_compositor b id layers m).1.scene_compositors id ≡ some pid
      → Composes b layers pid
  unfolding run_compositor install_compositor drop_compositor
  run-Composes layers m idle runs = elim (Sum-cases (b.listen layers)) [
    | inl (e, h) ↦ absurd (ground (arith, h, idle))
    | inr (ports, h) ↦
        elim (Sum-cases (b.launch (compositor_args b.floats b.config ports layers))) [
          | inl (e, q) ↦ absurd (ground (arith, h, q, idle))
          | inr (child, q) ↦ (
            ports,
            q ∙ ground (arith, h, q, lookup-insert (remove m.scene_compositors id) id child id),
          )
        ]
  ]

  compose-Composes :
      (layers : List CompLayer) (m : Media)
      → lookup m.scene_compositors id ≡ none
      → lookup (compose b id layers m).1.scene_compositors id ≡ some pid
      → Composes b layers pid
  compose-Composes [] m idle runs = absurd (ground (arith, idle))
  compose-Composes (layer ∷ layers) m idle runs = run-Composes (layer ∷ layers) m idle runs

  start-Composes :
      (rows : List LayerRow) (m : Media)
      → b.rows id ≡ inr rows
      → lookup (start_scene_compositor b id m).1.scene_compositors id ≡ some pid
      → Composes b (live_layers b.floats (stop_scene_compositor id m) rows) pid
  unfolding start_scene_compositor
  start-Composes rows m e runs =
      let stopped = stop_scene_compositor id m in
      let started : start_scene_compositor b id m
          ≡ compose b id (live_layers b.floats stopped rows) stopped =
        rw (start_scene_compositor, e) refl in
      compose-Composes (live_layers b.floats stopped rows) stopped
        (ground (arith, compositors-stop_scene id m id))
        (sym (ap (λ r. lookup r.1.scene_compositors id) started) ∙ runs)

pub data Edit : Type 0 where
  op_add : (id source_id : ℕ) → UpdateLayer → Edit
  op_update : (layer_id : ℕ) → UpdateLayer → Edit
  op_delete : (layer_id : ℕ) → Edit

abbrev answer : (MuxshedError ⊎ Layer) × Editor → Option MuxshedError × Editor
answer (inl err, e) = (some err, e)
answer (inr layer, e) = (none, e)

unfoldable pub edit : Sql → Backstage → ℕ → Edit → Editor → Option MuxshedError × Editor
edit q b scene_id (op_add id source_id cl) e = answer (add_layer q b id scene_id source_id cl e)
edit q b scene_id (op_update layer_id u) e = answer (update_layer q b scene_id layer_id u e)
edit q b scene_id (op_delete layer_id) e = delete_layer q b scene_id layer_id e

abbrev pub Runs : Backstage → List CompLayer → Option ℕ → Type 0
Runs b layers none = Unit {0}
Runs b layers (some pid) = Composes b layers pid

-- If a compositor runs for the scene, it was launched for the layers that the database has.
abbrev pub IsCurrent : Sql → Backstage → ℕ → Media → Editor → Type 0
IsCurrent q b scene_id m e =
    Runs b
      (live_layers b.floats (stop_scene_compositor scene_id m)
        (map comp_row (scene_rows q scene_id e.layers)))
      (lookup e.mixer.media.scene_compositors scene_id)

Runs-intro :
    (b : Backstage) (layers : List CompLayer) (running : Option ℕ)
    → ((pid : ℕ) → running ≡ some pid → Composes b layers pid)
    → Runs b layers running
Runs-intro b layers none h = tt
Runs-intro b layers (some pid) h = h pid refl

-- What an edit leaves of a scene on program, by its result.
abbrev pub Edited : Sql → Backstage → ℕ → Editor → Option MuxshedError × Editor → Type 0
Edited q b scene_id e (some err, e') = e' ≡ e
Edited q b scene_id e (none, e') = IsCurrent q b scene_id e.mixer.media e'

module _ (q : Sql) (b : Backstage) (scene_id : ℕ) where
  refresh-IsCurrent :
      (e : Editor)
      → option_eq e.mixer.program_intent (some scene_id) ≡ true
      → IsCurrent q b scene_id e.mixer.media (refresh_if_active q b scene_id e)
  unfolding refresh_if_active
  refresh-IsCurrent e on =
      let started = start_scene_compositor (backstage q b e.layers) scene_id e.mixer.media in
      let anew : refresh_if_active q b scene_id e
          ≡ record e { mixer = record e.mixer { media = started.1 } } =
        rw on refl in
      subst (IsCurrent q b scene_id e.mixer.media) (sym anew) (
        Runs-intro b
          (live_layers b.floats (stop_scene_compositor scene_id e.mixer.media)
            (map comp_row (scene_rows q scene_id e.layers)))
          (lookup started.1.scene_compositors scene_id)
          (λ pid runs.
            start-Composes (backstage q b e.layers) scene_id pid
              (map comp_row (scene_rows q scene_id e.layers)) e.mixer.media refl runs))

  -- The edits answer with an error and the state as it was, or change the rows only before the refresh.
  module _ (e : Editor) (on : option_eq e.mixer.program_intent (some scene_id) ≡ true) where
    add-Edited :
        (id source_id : ℕ) (cl : UpdateLayer)
        → Edited q b scene_id e (answer (add_layer q b id scene_id source_id cl e))
    unfolding insert_layer add_layer
    add-Edited id source_id cl = elim (Bool-cases (has_scene scene_id e)) [
      | inr absent ↦ rw (add_layer, absent) refl
      | inl there ↦ elim (Bool-cases (q.source_known source_id)) [
        | inr unknown ↦ rw (add_layer, there, insert_layer, unknown) refl
        | inl known ↦ rw (add_layer, there, insert_layer, known) (refresh-IsCurrent _ on)
      ]
    ]

    update-Edited :
        (layer_id : ℕ) (u : UpdateLayer)
        → Edited q b scene_id e (answer (update_layer q b scene_id layer_id u e))
    unfolding write_layer update_layer
    update-Edited layer_id u = elim (Option-cases (find? (is_row scene_id layer_id) e.layers)) [
      | inl absent ↦ rw (update_layer, absent) refl
      | inr (r, found) ↦ elim (Bool-cases (q.source_known (patched u r).source_id)) [
        | inr unknown ↦ rw (update_layer, found, write_layer, unknown) refl
        | inl known ↦ rw (update_layer, found, write_layer, known) (refresh-IsCurrent _ on)
      ]
    ]

    delete-Edited : (layer_id : ℕ) → Edited q b scene_id e (delete_layer q b scene_id layer_id e)
    unfolding delete_layer
    delete-Edited layer_id = elim (Bool-cases (any (is_row scene_id layer_id) e.layers)) [
      | inr absent ↦ rw (delete_layer, absent) refl
      | inl there ↦ rw (delete_layer, there) (refresh-IsCurrent _ on)
    ]

-- After an edit of the scene on program, a compositor that runs for it was launched for the live layers of the
-- rows as they are now, none for the rows of before; an edit that is refused changes nothing.
pub edit-Edited :
    (q : Sql) (b : Backstage) (scene_id : ℕ) (op : Edit) (e : Editor)
    → option_eq e.mixer.program_intent (some scene_id) ≡ true
    → Edited q b scene_id e (edit q b scene_id op e)
unfolding edit
edit-Edited q b scene_id (op_add id source_id cl) e on =
    add-Edited q b scene_id e on id source_id cl
edit-Edited q b scene_id (op_update layer_id u) e on = update-Edited q b scene_id e on layer_id u
edit-Edited q b scene_id (op_delete layer_id) e on = delete-Edited q b scene_id e on layer_id
