-- ===== src/Scene/Graph.antt =====
-- The filter graph of a scene: crates/api/src/scene_compositor.rs, `build_filter_graph`.
use shed.Prelude.{
  Bool-cases, ◌++◌, Option-cases, is_some, unwrap_or, length, get_elem?, All, ℕ, zero, suc, ◌+◌,
  ◌*◌, ◌≤◌, max, String, ◌≡◌, refl, sym, ap, ◌∙◌, inl, inr, true, Option, some, List, [], ◌∷◌,
  arith, if_cases, concat, decimal,
}
use mathlib.Core.Path.{subst}
use shed.Media.{Media}
use shed.Scene.Filters.{
  fit_filter, join, base_step, build_filter_graph, Floats, CompLayer, LayerRow, scale_step,
  overlay_step, add_layers, producing, comp_layer, as_u32, live_layers,
}

-- What the graph has below layer `i`.
abbrev pub label : ℕ → String
label zero = "base"
label (suc i) = concat ("s" ∷ decimal i ∷ [])

double_suc : (i : ℕ) → 2 * suc i ≡ suc (suc (2 * i))
double_suc i = omega arith

add_zero : (k : ℕ) → k ≡ k + 0
add_zero k = omega arith

zero_add : (k : ℕ) → 0 + k ≡ k
zero_add k = omega arith

shift_suc : (k i : ℕ) → suc k + i ≡ k + suc i
shift_suc k i = omega arith

last_label :
    (fl : Floats) (k : ℕ) (layers : List CompLayer)
    → (add_layers fl k (label k) layers).1 ≡ label (k + length layers)
unfolding add_layers
last_label fl k [] = ap label (omega arith)
last_label fl k (layer ∷ layers) =
    last_label fl (suc k) layers ∙ ap label (shift_suc k (length layers))

-- The two steps of layer `i`, as texts: the first makes of input `i` the picture `l<i>`, and the second draws that picture over what
-- is below (the first input of an overlay is the one below), at the layer's place.
abbrev pub Steps : ℕ → CompLayer → Option String → Option String → Type 0
Steps i layer first second =
    let (scale, (x, y)) = fit_filter layer.fit layer.x layer.y layer.w layer.h in
    ((blend : List String) × (first
        ≡ some (
            concat (
              "["
              ∷ decimal i
              ∷ ":v]setpts=PTS-STARTPTS,"
              ∷ scale
              ∷ (blend ++ ("[l" ∷ decimal i ∷ "]" ∷ []))))))
    × (second
        ≡ some (
            concat (
              "["
              ∷ label i
              ∷ "][l"
              ∷ decimal i
              ∷ "]overlay=x="
              ∷ x
              ∷ ":y="
              ∷ y
              ∷ ":eof_action=pass["
              ∷ label (suc i)
              ∷ "]"
              ∷ [])))

step_texts :
    (fl : Floats) (i : ℕ) (layer : CompLayer)
    → Steps i layer
        (some (scale_step fl i layer))
        (some (overlay_step i layer (label i) (label (suc i))))
unfolding scale_step overlay_step
step_texts fl i layer = elim (Bool-cases (fl.translucent layer.opacity)) [
  | inl e ↦ (
    (
      ",format=yuva420p,colorchannelmixer=aa=" ∷ fl.three_decimals layer.opacity ∷ [],
      rw (scale_step, e) refl,
    ),
    refl,
  )
  | inr e ↦ (([], rw (scale_step, e) refl), refl)
]

Steps-at :
    (fl : Floats) (k : ℕ) (layers : List CompLayer) (i : ℕ) (layer : CompLayer)
    → get_elem? layers i ≡ some layer
    → let steps = (add_layers fl k (label k) layers).0 in
      Steps (k + i) layer (get_elem? steps (2 * i)) (get_elem? steps (suc (2 * i)))
unfolding add_layers
Steps-at fl k [] i layer h = absurd (ground (arith, ap is_some h))
Steps-at fl k (l ∷ layers) zero layer h =
    let same : l ≡ layer = ap (λ o. unwrap_or o l) h in
    let first = some (scale_step fl k l) in
    let second = some (overlay_step k l (label k) (label (suc k))) in
    subst (λ q. Steps (k + 0) q first second) same
      (subst (λ n. Steps n l first second) (add_zero k) (step_texts fl k l))
Steps-at fl k (l ∷ layers) (suc i) layer h =
    let steps = (add_layers fl k (label k) (l ∷ layers)).0 in
    let ih = Steps-at fl (suc k) layers i layer h in
    subst (λ n. Steps (k + suc i) layer (get_elem? steps n) (get_elem? steps (suc n)))
      (sym (double_suc i))
      (subst
        (λ n.
          Steps n layer (get_elem? steps (suc (suc (2 * i))))
            (get_elem? steps (suc (suc (suc (2 * i))))))
        (shift_suc k i) ih)

length_steps :
    (fl : Floats) (k : ℕ) (below : String) (layers : List CompLayer)
    → length (add_layers fl k below layers).0 ≡ 2 * length layers
unfolding add_layers
length_steps fl k below [] = refl
length_steps fl k below (l ∷ layers) =
    ground (arith, length_steps fl (suc k) (concat ("s" ∷ decimal k ∷ [])) layers)

-- The graph of a scene starts with a black canvas of the output's size and rate, named `base`, and
-- has two steps for each layer, in the layers' order, at the positions 2i and 2i + 1: the picture of
-- the layer, scaled to its place, and the overlay that draws it over what is below, the canvas for
-- the first layer and the result of the one before for the others. The last result is the graph's.
pub graph-Steps :
    (fl : Floats) (layers : List CompLayer) (width height fps : ℕ)
    → let canvas = concat (
        "color=c=black:s="
        ∷ decimal width
        ∷ "x"
        ∷ decimal height
        ∷ ":r="
        ∷ decimal fps
        ∷ "[base]"
        ∷ []) in
      (steps : List String) × (build_filter_graph fl layers width height fps
        ≡ (join (canvas ∷ steps), label (length layers)))
      × (length steps ≡ 2 * length layers)
      × ((i : ℕ) (layer : CompLayer)
          → get_elem? layers i ≡ some layer
          → Steps i layer (get_elem? steps (2 * i)) (get_elem? steps (suc (2 * i))))
unfolding build_filter_graph base_step
graph-Steps fl layers width height fps =
    let steps = (add_layers fl 0 "base" layers).0 in
    (
      steps,
      ap (λ last. (join (base_step width height fps ∷ steps), last))
          (last_label fl 0 layers ∙ ap label (zero_add (length layers))),
      length_steps fl 0 "base" layers,
      λ i layer h.
          subst (λ n. Steps n layer (get_elem? steps (2 * i)) (get_elem? steps (suc (2 * i))))
            (zero_add i) (Steps-at fl 0 layers i layer h),
    )

abbrev pub IsShown : Media → CompLayer → Type 0
IsShown m l = (producing m l.source_id ≡ true) × (2 ≤ l.w) × (2 ≤ l.h)

at_least_2 : (n : ℕ) → 2 ≤ max n 2
at_least_2 n = omega arith

-- The layers of a composite all produce video, and none is narrower or lower than two pixels.
pub live_layers-All :
    (fl : Floats) (m : Media) (rows : List LayerRow) → All (IsShown m) (live_layers fl m rows)
unfolding live_layers
live_layers-All fl m [] = tt
live_layers-All fl m (row ∷ rows) = elim (Option-cases row.source_id) [
  | inl e ↦ rw (live_layers, e) (live_layers-All fl m rows)
  | inr (id, e) ↦
      rw (live_layers, e)
        (if_cases (All (IsShown m)) (producing m id) (comp_layer fl row id ∷ live_layers fl m rows)
          (live_layers fl m rows)
          (λ h. (
            (h, at_least_2 (as_u32 row.width), at_least_2 (as_u32 row.height)),
            live_layers-All fl m rows,
          ))
          (λ h. live_layers-All fl m rows))
]
