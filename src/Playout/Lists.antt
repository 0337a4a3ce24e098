-- ===== src/Playout/Lists.antt =====
-- What a broadcast loads: crates/api/src/playout.rs, `load_playlist` and `load_destinations`.
use shed.Prelude.{
  ◌==◌, Option-cases, is_some, unwrap_or, option_eq, All, All-append, keep_if, ℕ, ◌+◌, String, ◌≡◌,
  refl, sym, ap, ◌∙◌, ◌⊎◌, inl, inr, Bool, true, not, ◌&&◌, Option, none, some, List, [], ◌∷◌, ◌++◌,
  map, arith, option_list, ◌>>=◌, if_cases, &&-eq-true, Sum-cases,
}
use mathlib.Core.List.{append-nil, append_assoc}
use native.Mathlib.Nat.{mod-mod, mod-add-mod}
use shed.Types.{ℤ, Destination}
use shed.Stream.{DestRow, into_destination, selected}
use shed.Playout.Loads.{
  enabled_row, enabled_rows, Tables, load_playlist, load_destinations, chosen_rows, rows_of, parsed,
  playable, playlist_of, empty_playlist, at_least_0, Playlist, wrap_u64, add_item, load_items,
}

-- The assets that the items name and that are there, or the first error of a query.
unfoldable pub found : (ℕ → String ⊎ Option (String × ℤ)) → List ℕ → String ⊎ List (String × ℤ)
found asset [] = inr []
found asset (ref_id ∷ rows) = elim (asset ref_id) [
  | inl e ↦ inl e
  | inr a ↦ elim (found asset rows) [ inl e ↦ inl e | inr rest ↦ inr (option_list a ++ rest) ]
]

-- The sum of the durations that are not negative.
abbrev pub total : List (String × ℤ) → ℕ
total [] = 0
total (a ∷ assets) = at_least_0 a.1 + total assets

-- A playlist with a list of assets after its own.
abbrev pub extend : Playlist → List (String × ℤ) → Playlist
extend p assets = record {
  files = p.files ++ map (λ a. a.0) assets;
  total_ms = wrap_u64 (p.total_ms + total assets);
}

abbrev pub extended : Playlist → String ⊎ List (String × ℤ) → String ⊎ Playlist
extended p (inl e) = inl e
extended p (inr assets) = inr (extend p assets)

Playlist_ext : (p q : Playlist) → p.files ≡ q.files → p.total_ms ≡ q.total_ms → p ≡ q
Playlist_ext p q files total_ms =
    ap (λ f. record p { files = f }) files ∙ ap (λ n. record q { total_ms = n }) total_ms

add_zero : (n : ℕ) → n + 0 ≡ n
add_zero n = omega arith

zero_add : (n : ℕ) → 0 + n ≡ n
zero_add n = omega arith

add_assoc : (a b c : ℕ) → a + b + c ≡ a + (b + c)
add_assoc a b c = omega arith

-- A playlist, from the assets found.
abbrev pub of_assets : List (String × ℤ) → String ⊎ Playlist
of_assets [] = inl "no playable VOD assets"
of_assets (a ∷ assets) =
    inr (record { files = map (λ b. b.0) (a ∷ assets); total_ms = wrap_u64 (total (a ∷ assets)) })

abbrev pub of_found : String ⊎ List (String × ℤ) → String ⊎ Playlist
of_found (inl e) = inl e
of_found (inr assets) = of_assets assets

abbrev pub of_items : (ℕ → String ⊎ Option (String × ℤ)) → List ℕ → String ⊎ Playlist
of_items asset [] = inl "schedule has no VOD items"
of_items asset (ref_id ∷ rows) = of_found (found asset (ref_id ∷ rows))

-- What `load_playlist` is to give.
unfoldable pub reference : Tables → ℕ → String ⊎ Playlist
reference t id = elim (t.items id) [ inl e ↦ inl e | inr rows ↦ of_items t.asset rows ]

abbrev IsWrapped : Playlist → Type 0
IsWrapped p = wrap_u64 p.total_ms ≡ p.total_ms

extend_nothing : (p : Playlist) → IsWrapped p → p ≡ extend p []
extend_nothing p wrapped =
    Playlist_ext p (extend p []) (sym (append-nil p.files))
      (sym (ap wrap_u64 (add_zero p.total_ms) ∙ wrapped))

extend_item :
    (a : Option (String × ℤ)) (p : Playlist) (rest : List (String × ℤ))
    → IsWrapped p
    → extend (add_item a p) rest ≡ extend p (option_list a ++ rest)
extend_item none p rest wrapped = refl
extend_item (some a) p rest wrapped =
    Playlist_ext (extend (add_item (some a) p) rest) (extend p (a ∷ rest))
      (append_assoc p.files (a.0 ∷ []) (map (λ b. b.0) rest))
      (mod-add-mod (p.total_ms + at_least_0 a.1) 18446744073709551616 (total rest)
        ∙ ap wrap_u64 (add_assoc p.total_ms (at_least_0 a.1) (total rest)))

add_item-IsWrapped :
    (a : Option (String × ℤ)) (p : Playlist) → IsWrapped p → IsWrapped (add_item a p)
add_item-IsWrapped none p wrapped = wrapped
add_item-IsWrapped (some a) p wrapped = mod-mod (p.total_ms + at_least_0 a.1) 18446744073709551616

load_items-extended :
    (asset : ℕ → String ⊎ Option (String × ℤ)) (rows : List ℕ) (p : Playlist)
    → IsWrapped p
    → load_items asset rows p ≡ extended p (found asset rows)
unfolding load_items found
load_items-extended asset [] p wrapped = ap inr (extend_nothing p wrapped)
load_items-extended asset (ref_id ∷ rows) p wrapped = elim (Sum-cases (asset ref_id)) [
  | inl (e, h) ↦ rw (load_items, found, h) refl
  | inr (a, h) ↦
      let ih = load_items-extended asset rows (add_item a p) (add_item-IsWrapped a p wrapped) in
      elim (Sum-cases (found asset rows)) [
        | inl (e, q) ↦ rw (load_items, found, h, q) (ih ∙ ap (extended (add_item a p)) q)
        | inr (rest, q) ↦
            rw (load_items, found, h, q)
              (ih ∙ ap (extended (add_item a p)) q ∙ ap inr (extend_item a p rest wrapped))
      ]
]

abbrev playable_of : String ⊎ Playlist → String ⊎ Playlist
playable_of (inl e) = inl e
playable_of (inr p) = playable p

assets_reference :
    (assets : List (String × ℤ)) → playable (extend empty_playlist assets) ≡ of_assets assets
assets_reference [] = refl
assets_reference (a ∷ assets) = ap inr (
    Playlist_ext (extend empty_playlist (a ∷ assets))
      (record { files = map (λ b. b.0) (a ∷ assets); total_ms = wrap_u64 (total (a ∷ assets)) })
      refl (ap wrap_u64 (zero_add (total (a ∷ assets)))))

rows_reference :
    (asset : ℕ → String ⊎ Option (String × ℤ)) (rows : List ℕ)
    → playlist_of asset rows ≡ of_items asset rows
rows_reference asset [] = refl
rows_reference asset (ref_id ∷ rows) =
    let loaded = load_items-extended asset (ref_id ∷ rows) empty_playlist refl in
    ap playable_of loaded ∙ (elim (Sum-cases (found asset (ref_id ∷ rows))) [
      | inl (e, h) ↦ rw h refl
      | inr (assets, h) ↦ rw h (assets_reference assets)
    ])

-- A playlist has the paths of the assets that its schedule's items name, in their order, those that
-- are gone left out, and the sum of the durations that are not negative, modulo 2^64; the load fails exactly
-- when a query does, when there is no item and when no asset is left.
pub load_playlist-reference : (t : Tables) (id : ℕ) → load_playlist t id ≡ reference t id
unfolding load_playlist reference
load_playlist-reference t id = elim (Sum-cases (t.items id)) [
  | inl (e, h) ↦ rw (load_playlist, reference, h) refl
  | inr (rows, h) ↦ rw (load_playlist, reference, h) (rows_reference t.asset rows)
]

abbrev pub IsEnabled : Destination → Type 0
IsEnabled d = d.enabled ≡ true

abbrev RowIsEnabled : DestRow → Type 0
RowIsEnabled r = (r.enabled == 1) ≡ true

enabled_nonzero : (n : ℕ) → (n == 1) ≡ true → not (n == 0) ≡ true
enabled_nonzero n h = ground arith

parsed-IsEnabled : (rows : List DestRow) → All RowIsEnabled rows → All IsEnabled (parsed rows)
unfolding parsed
parsed-IsEnabled [] h = tt
parsed-IsEnabled (row ∷ rows) h = elim (Option-cases row.kind) [
  | inl e ↦ rw (parsed, e) (parsed-IsEnabled rows h.1)
  | inr (kind, e) ↦ rw (parsed, e) (enabled_nonzero row.enabled h.0, parsed-IsEnabled rows h.1)
]

keep_if-RowIsEnabled : (rows : List DestRow) → All RowIsEnabled (keep_if (λ r. r.enabled == 1) rows)
keep_if-RowIsEnabled [] = tt
keep_if-RowIsEnabled (row ∷ rows) =
    if_cases (All RowIsEnabled) (row.enabled == 1) (row ∷ keep_if (λ r. r.enabled == 1) rows)
      (keep_if (λ r. r.enabled == 1) rows) (λ e. (e, keep_if-RowIsEnabled rows))
      (λ e. keep_if-RowIsEnabled rows)

enabled_row-RowIsEnabled :
    (rows : List DestRow) (id : ℕ) → All RowIsEnabled (option_list (enabled_row rows id))
enabled_row-RowIsEnabled [] id = tt
enabled_row-RowIsEnabled (row ∷ rows) id =
    if_cases (λ o. All RowIsEnabled (option_list o))
      (option_eq row.id (some id) && (row.enabled == 1)) (some row) (enabled_row rows id)
      (λ e. ((&&-eq-true (option_eq row.id (some id)) (row.enabled == 1) e).1, tt))
      (λ e. enabled_row-RowIsEnabled rows id)

-- As `serde` reads them, all rows have a kind.
abbrev pub AllParse : List DestRow → Type 0
AllParse rows = All (λ r. is_some r.kind ≡ true) rows

parsed-map : (rows : List DestRow) → AllParse rows → parsed rows ≡ map into_destination rows
unfolding parsed into_destination
parsed-map [] h = refl
parsed-map (row ∷ rows) h = elim (Option-cases row.kind) [
  | inl e ↦ absurd (ground (arith, h.0, e))
  | inr (kind, e) ↦
      let d : Destination = record {
        id = unwrap_or row.id 0;
        name = row.name;
        kind = kind;
        enabled = not (row.enabled == 0);
      } in
      rw (parsed, e, into_destination) (ap (λ ds. d ∷ ds) (parsed-map rows h.1))
]

keep_if-AllParse :
    (f : DestRow → Bool) (rows : List DestRow) → AllParse rows → AllParse (keep_if f rows)
keep_if-AllParse f [] h = tt
keep_if-AllParse f (row ∷ rows) h =
    if_cases AllParse (f row) (row ∷ keep_if f rows) (keep_if f rows)
      (λ e. (h.0, keep_if-AllParse f rows h.1)) (λ e. keep_if-AllParse f rows h.1)

enabled_rows-RowIsEnabled :
    (rows : List DestRow) (ids : List ℕ) → All RowIsEnabled (enabled_rows rows ids)
enabled_rows-RowIsEnabled rows [] = tt
enabled_rows-RowIsEnabled rows (id ∷ ids) =
    All-append RowIsEnabled (option_list (enabled_row rows id)) (enabled_rows rows ids)
      (enabled_row-RowIsEnabled rows id) (enabled_rows-RowIsEnabled rows ids)

chosen_rows-RowIsEnabled :
    (rows : List DestRow) (ids : List ℕ) → All RowIsEnabled (chosen_rows rows ids)
chosen_rows-RowIsEnabled rows [] = keep_if-RowIsEnabled rows
chosen_rows-RowIsEnabled rows (id ∷ ids) = enabled_rows-RowIsEnabled rows (id ∷ ids)

-- Every destination of a broadcast is enabled, whatever the schedule selects.
pub load_destinations-IsEnabled :
    (t : Tables) (destinations : String ⊎ List DestRow) (id : ℕ)
    → All IsEnabled (load_destinations t destinations id)
unfolding load_destinations
load_destinations-IsEnabled t destinations id =
    let ids = unwrap_or (t.schedule id >>= (λ row. row.destination_ids)) [] in
    parsed-IsEnabled (chosen_rows (rows_of destinations) ids)
      (chosen_rows-RowIsEnabled (rows_of destinations) ids)

-- A schedule that selects no destination broadcasts to those that going live by hand does, where
-- every row's kind can be read.
pub load_destinations-selected :
    (t : Tables) (rows : List DestRow) (id : ℕ)
    → unwrap_or (t.schedule id >>= (λ row. row.destination_ids)) [] ≡ []
    → AllParse rows
    → load_destinations t (inr rows) id ≡ selected [] rows
unfolding load_destinations selected
load_destinations-selected t rows id none_chosen h =
    ap (λ ids. parsed (chosen_rows rows ids)) none_chosen
    ∙ parsed-map (keep_if (λ r. r.enabled == 1) rows)
        (keep_if-AllParse (λ r. r.enabled == 1) rows h)
