-- ===== src/Layers/Partial.antt =====
-- Creations that fail half way, and the deletion of a scene on program: crates/api/src/routes/scenes.rs.
use shed.Prelude.{
  ◌==◌, any, ℕ, String, ◌≡◌, refl, ap, ◌∙◌, inl, Bool, true, not, some, List, [], ◌∷◌, ◌++◌, arith,
}
use shed.Prelude.Maps.{lookup, lookup-insert}
use shed.Types.MuxshedError.{database}
use shed.Layers.{insert_layer, insert_layers, insert_scene, create, has_scene}
use shed.Layers.Rows.{UpdateLayer, Sql, Editor}

-- The layers that a creation asks for, each with its id and its source.
abbrev pub Asked : Type 0
Asked = List (ℕ × (ℕ × UpdateLayer))

insert_layer-mixer :
    (q : Sql) (id scene_id source_id : ℕ) (cl : UpdateLayer) (e : Editor)
    → ((insert_layer q id scene_id source_id cl e).1.mixer ≡ e.mixer)
      × ((insert_layer q id scene_id source_id cl e).1.names ≡ e.names)
unfolding insert_layer
insert_layer-mixer q id scene_id source_id cl e = (ground arith, ground arith)

insert_layers-mixer :
    (q : Sql) (scene_id : ℕ) (layers : Asked) (e : Editor)
    → ((insert_layers q scene_id layers e).1.mixer ≡ e.mixer)
      × ((insert_layers q scene_id layers e).1.names ≡ e.names)
unfolding insert_layers
insert_layers-mixer q scene_id [] e = (refl, refl)
insert_layers-mixer q scene_id ((id, (source_id, cl)) ∷ layers) e =
    let first = insert_layer-mixer q id scene_id source_id cl e in
    let rest =
      insert_layers-mixer q scene_id layers (insert_layer q id scene_id source_id cl e).1 in
    (ground (arith, first, rest), ground (arith, first, rest))

any-last : (id : ℕ) (scenes : List ℕ) → any (λ s. s == id) (scenes ++ (id ∷ [])) ≡ true
any-last id [] = ground arith
any-last id (s ∷ scenes) = ground (arith, any-last id scenes)

abbrev pub unknown_source : Sql → Asked → Bool
unknown_source q layers = any (λ l. not (q.source_known l.1.0)) layers

insert_layers-refused :
    (q : Sql) (scene_id : ℕ) (layers : Asked) (e : Editor)
    → unknown_source q layers ≡ true
    → (insert_layers q scene_id layers e).0 ≡ inl (database q.refusal)
unfolding insert_layers insert_layer
insert_layers-refused q scene_id [] e h = absurd (ground (arith, h))
insert_layers-refused q scene_id ((id, (source_id, cl)) ∷ layers) e h = ground (
  arith,
  h,
  insert_layers-refused q scene_id layers (insert_layer q id scene_id source_id cl e).1,
)

-- A creation of a scene with a layer whose source does not exist is answered with an error, and the scene is
-- there all the same: its insertion and those of its layers are not one transaction.
pub refused_create_leaves_scene :
    (q : Sql) (id : ℕ) (name : String) (layers : Asked) (e : Editor)
    → unknown_source q layers ≡ true
    → let made = create q id name layers e in
      (made.0 ≡ inl (database q.refusal))
      × (has_scene id made.1 ≡ true)
      × (lookup made.1.names id ≡ some name)
unfolding create insert_scene
refused_create_leaves_scene q id name layers e h =
    let e' = insert_scene id name e in
    let (mixer, names) = insert_layers-mixer q id layers e' in
    (
      insert_layers-refused q id layers e' h,
      ap (λ m. any (λ s. s == id) m.scenes) mixer ∙ any-last id e.mixer.scenes,
      ap (λ n. lookup n id) names ∙ ground (arith, lookup-insert e.names id name id),
    )
