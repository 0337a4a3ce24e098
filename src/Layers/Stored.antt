-- ===== src/Layers/Stored.antt =====
-- What is stored is what is listed: crates/api/src/routes/scenes.rs, `insert_layer` and `fetch_layers`.
use shed.Prelude.{
  ◌==◌, if◌then◌else◌, ==_refl, keep_if, ℕ, ◌<◌, ◌≡◌, refl, sym, ap, ◌∙◌, ◌↔◌, ◌⊎◌, inl, inr, Bool,
  true, false, List, [], ◌∷◌, ◌++◌, map, arith,
}
use mathlib.Core.Path.{subst}
use mathlib.Core.List.{append-nil}
use shed.Types.LayerFit.{LayerFit, fill, contain, cover, as_str, from_db}
use shed.Scene.{Backstage}
use shed.Scene.Filters.{as_i32, as_u32}
use shed.Layers.{insert_layer, scene_rows, fetch_layers, has_scene, refresh_if_active, add_layer}
use shed.Layers.Rows.{
  Layer, UpdateLayer, StoredLayer, Sql, Editor, i32, into_layer, new_layer, stored,
}

abbrev pub Has : {A : Type 0} → A → List A → Type 0
Has x [] = ⊥
Has x (y ∷ ys) = (x ≡ y) ⊎ Has x ys

module _ {A B : Type 0} (f : A → B) where
  Has-map : (x : A) (xs : List A) → Has x xs → Has (f x) (map f xs)
  Has-map x [] h = absurd h
  Has-map x (y ∷ ys) (inl e) = inl (ap f e)
  Has-map x (y ∷ ys) (inr h) = inr (Has-map x ys h)

  Has-of_map : (b : B) (xs : List A) → Has b (map f xs) → (x : A) × Has x xs × (b ≡ f x)
  Has-of_map b [] h = absurd h
  Has-of_map b (y ∷ ys) (inl e) = (y, inl refl, e)
  Has-of_map b (y ∷ ys) (inr h) = let (x, there, e) = Has-of_map b ys h in (x, inr there, e)

  Has-map_mono :
      (xs ys : List A)
      → ((x : A) → Has x xs → Has x ys)
      → (b : B) → Has b (map f xs)
      → Has b (map f ys)
  Has-map_mono xs ys mono b h =
      let (x, there, e) = Has-of_map b xs h in
      subst (λ c. Has c (map f ys)) (sym e) (Has-map x ys (mono x there))

  Has-map_last :
      (b : B) (xs : List A) (y : A)
      → Has b (map f (xs ++ (y ∷ []))) ↔ ((b ≡ f y) ⊎ Has b (map f xs))
  Has-map_last b [] y = (λ h. h, λ h. h)
  Has-map_last b (x ∷ xs) y =
      let ih = Has-map_last b xs y in
      (
        λ h. elim h [
          | inl e ↦ inr (inl e)
          | inr later ↦ elim (ih.0 later) [ inl e ↦ inl e | inr m ↦ inr (inr m) ]
        ],
        λ h. elim h [
          | inl e ↦ inr (ih.1 (inl e))
          | inr there ↦ elim there [ inl e ↦ inl e | inr m ↦ inr (ih.1 (inr m)) ]
        ],
      )

keep_if-last {ℓ} :
    {A : Type ℓ} (p : A → Bool) (xs : List A) (y : A)
    → keep_if p (xs ++ (y ∷ [])) ≡ keep_if p xs ++ (if p y then y ∷ [] else [])
keep_if-last p [] y = ground arith
keep_if-last p (x ∷ xs) y = ground (arith, keep_if-last p xs y)

-- The casts to `i32` and back lose nothing of a `u32`.
as_u32-i32 : (n : ℕ) → n < 4294967296 → as_u32 (i32 n) ≡ n
unfolding as_i32 as_u32
as_u32-i32 n h = ground arith

from_db-as_str : (fit : LayerFit) → from_db (as_str fit) ≡ fit
unfolding from_db as_str
from_db-as_str fill = refl
from_db-as_str contain = refl
from_db-as_str cover = refl

-- The numbers of a layer are `u32`.
pub record IsU32 (l : Layer) : Type 0 where
  pub width : l.width < 4294967296
  pub height : l.height < 4294967296
  pub z_index : l.z_index < 4294967296

pub into_layer-stored : (scene_id : ℕ) (l : Layer) → IsU32 l → into_layer (stored scene_id l) ≡ l
unfolding into_layer stored
into_layer-stored scene_id l u = ground (
  arith,
  as_u32-i32 l.width u.width,
  as_u32-i32 l.height u.height,
  as_u32-i32 l.z_index u.z_index,
  from_db-as_str l.fit,
)

pub layers-refresh :
    (q : Sql) (b : Backstage) (scene_id : ℕ) (e : Editor)
    → (refresh_if_active q b scene_id e).layers ≡ e.layers
unfolding refresh_if_active
layers-refresh q b scene_id e = ground arith

-- What `ORDER BY` does to the rows that it is given.
abbrev pub KeepsRows : Sql → Type 0
KeepsRows q = (rows : List StoredLayer) (r : StoredLayer) → Has r (q.order rows) ↔ Has r rows

abbrev of_scene : ℕ → List StoredLayer → List StoredLayer
of_scene id rows = keep_if (λ r. r.scene_id == id) rows

of_scene-last :
    (rows : List StoredLayer) (l : Layer) (id : ℕ)
    → of_scene id (rows ++ (stored id l ∷ [])) ≡ of_scene id rows ++ (stored id l ∷ [])
unfolding stored
of_scene-last rows l id =
    keep_if-last (λ r. r.scene_id == id) rows (stored id l) ∙ rw (==_refl id) refl

of_scene-other :
    (rows : List StoredLayer) (l : Layer) (id other : ℕ)
    → (id == other) ≡ false
    → of_scene other (rows ++ (stored id l ∷ [])) ≡ of_scene other rows
unfolding stored
of_scene-other rows l id other h =
    keep_if-last (λ r. r.scene_id == other) rows (stored id l)
    ∙ rw h (append-nil (of_scene other rows))

listed :
    (q : Sql)
    → KeepsRows q
    → (rows : List StoredLayer) (r : StoredLayer) (l : Layer)
    → Has l (map into_layer (q.order (rows ++ (r ∷ []))))
      ↔ ((l ≡ into_layer r) ⊎ Has l (map into_layer (q.order rows)))
listed q keeps rows r l =
    let reorder = λ (xs ys : List StoredLayer) (h : (x : StoredLayer) → Has x xs → Has x ys).
      Has-map_mono into_layer xs ys h l in
    let last = Has-map_last into_layer l rows r in
    (
      λ h.
          elim (last.0 (
            reorder (q.order (rows ++ (r ∷ []))) (rows ++ (r ∷ []))
              (λ x. (keeps (rows ++ (r ∷ [])) x).0) h)) [
                | inl e ↦ inl e
                | inr m ↦ inr (reorder rows (q.order rows) (λ x. (keeps rows x).1) m)
              ],
      λ h.
          reorder (rows ++ (r ∷ [])) (q.order (rows ++ (r ∷ [])))
            (λ x. (keeps (rows ++ (r ∷ [])) x).1)
            (last.1 (elim h [
              | inl e ↦ inl e
              | inr m ↦ inr (reorder (q.order rows) rows (λ x. (keeps rows x).0) m)
            ])),
    )

module _ (q : Sql) (b : Backstage) (id scene_id source_id : ℕ) (cl : UpdateLayer) (e : Editor)
    (keeps : KeepsRows q) (known : q.source_known source_id ≡ true)
    (there : has_scene scene_id e ≡ true) where
  added_layers :
      ((add_layer q b id scene_id source_id cl e).0 ≡ inr (new_layer id source_id cl))
      × ((add_layer q b id scene_id source_id cl e).1.layers
          ≡ e.layers ++ (stored scene_id (new_layer id source_id cl) ∷ []))
  unfolding add_layer insert_layer
  added_layers = rw (there, known) (refl, layers-refresh q b scene_id _)

  -- A layer that is added to a scene is answered as it is then listed, with what the request gives and the defaults for the
  -- rest: the layers of the scene are those of before and this one, and those of another scene are as they were. The scene exists,
  -- the source does, and the numbers are 32-bit words; an `ORDER BY` keeps the rows.
  pub added_layer_is_listed :
      IsU32 (new_layer id source_id cl)
      → (other : ℕ) → (scene_id == other) ≡ false
      → let added = add_layer q b id scene_id source_id cl e in
        (added.0 ≡ inr (new_layer id source_id cl))
        × ((l : Layer)
            → Has l (fetch_layers q scene_id added.1)
              ↔ ((l ≡ new_layer id source_id cl) ⊎ Has l (fetch_layers q scene_id e)))
        × (fetch_layers q other added.1 ≡ fetch_layers q other e)
  unfolding scene_rows fetch_layers
  added_layer_is_listed words other h =
      let layer = new_layer id source_id cl in
      let (answer, rows) = added_layers in
      let new = stored scene_id layer in
      let mine = of_scene scene_id e.layers in
      let fetched : fetch_layers q scene_id (add_layer q b id scene_id source_id cl e).1
          ≡ map into_layer (q.order (mine ++ (new ∷ []))) =
        ap (λ ls. map into_layer (scene_rows q scene_id ls)) rows
        ∙ ap (λ ls. map into_layer (q.order ls)) (of_scene-last e.layers layer scene_id) in
      let back = into_layer-stored scene_id layer words in
      (
        answer,
        λ l. rw fetched (
            subst
              (λ k.
                Has l (map into_layer (q.order (mine ++ (new ∷ []))))
                ↔ ((l ≡ k) ⊎ Has l (map into_layer (q.order mine))))
              back (listed q keeps mine new l)),
        ap (λ ls. map into_layer (scene_rows q other ls)) rows
            ∙ ap (λ ls. map into_layer (q.order ls))
                (of_scene-other e.layers layer scene_id other h),
      )
