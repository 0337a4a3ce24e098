-- ===== src/Playout/Loads.antt =====
-- What a broadcast reads of the database: crates/api/src/playout.rs, `load_playlist` and its like. The
-- queries' results are given.
use shed.Prelude.{
  ◌==◌, unwrap_or, option_eq, keep_if, find?, ℕ, ◌+◌, ◌%◌, String, ◌⊎◌, inl, inr, not, ◌&&◌, Option,
  none, some, List, [], ◌∷◌, ◌++◌, option_list, ◌>>=◌,
}
use shed.Types.{ℤ, pos, negsuc, Destination}
use shed.Types.EndBehavior.{EndBehavior, stop, from_db}
use shed.Stream.{DestRow}

-- `max(0) as u64`.
abbrev pub at_least_0 : ℤ → ℕ
at_least_0 (pos n) = n
at_least_0 (negsuc n) = 0

-- What the broadcast reads of a row of `schedules`; `destination_ids` as serde reads them.
pub record ScheduleRow : Type 0 where
  pub end_behavior : String
  pub standby_asset_id : Option ℕ
  pub destination_ids : Option (List ℕ)

-- The queries: a schedule's VOD items in their order, an asset's path and duration, a schedule.
pub record Tables : Type 0 where
  pub items : ℕ → String ⊎ List ℕ
  pub asset : ℕ → String ⊎ Option (String × ℤ)
  pub schedule : ℕ → Option ScheduleRow

pub record Playlist : Type 0 where
  pub files : List String
  pub total_ms : ℕ

abbrev pub wrap_u64 : ℕ → ℕ
wrap_u64 n = n % 18446744073709551616

abbrev pub add_item : Option (String × ℤ) → Playlist → Playlist
add_item none p = p
add_item (some (path, duration)) p = record {
  files = p.files ++ (path ∷ []);
  total_ms = wrap_u64 (p.total_ms + at_least_0 duration);
}

-- The loop over the items; an asset that is gone is passed over.
unfoldable pub load_items :
    (ℕ → String ⊎ Option (String × ℤ)) → List ℕ → Playlist → String ⊎ Playlist
load_items asset [] p = inr p
load_items asset (ref_id ∷ rows) p = elim (asset ref_id) [
  | inl e ↦ inl e
  | inr a ↦ load_items asset rows (add_item a p)
]

abbrev pub empty_playlist : Playlist
empty_playlist = record { files = []; total_ms = 0 }

abbrev pub playable : Playlist → String ⊎ Playlist
playable p = elim p.files [ [] ↦ inl "no playable VOD assets" | _ ∷ _ ↦ inr p ]

abbrev pub playlist_of : (ℕ → String ⊎ Option (String × ℤ)) → List ℕ → String ⊎ Playlist
playlist_of asset [] = inl "schedule has no VOD items"
playlist_of asset (ref_id ∷ rows) = elim (load_items asset (ref_id ∷ rows) empty_playlist) [
  | inl e ↦ inl e
  | inr p ↦ playable p
]

unfoldable pub load_playlist : Tables → ℕ → String ⊎ Playlist
load_playlist t id = elim (t.items id) [ inl e ↦ inl e | inr rows ↦ playlist_of t.asset rows ]

unfoldable pub load_end_behavior : Tables → ℕ → EndBehavior
load_end_behavior t id = elim (t.schedule id) [ none ↦ stop | some row ↦ from_db row.end_behavior ]

unfoldable pub load_standby_asset : Tables → ℕ → Option String
load_standby_asset t id =
    t.schedule id
    >>= (λ row. row.standby_asset_id)
    >>= (λ asset_id. elim (t.asset asset_id) [ inl e ↦ none | inr a ↦ a >>= (λ r. some r.0) ])

-- The row that `WHERE id = ? AND enabled = 1` gives.
abbrev pub enabled_row : List DestRow → ℕ → Option DestRow
enabled_row rows id = find? (λ r. option_eq r.id (some id) && (r.enabled == 1)) rows

abbrev pub enabled_rows : List DestRow → List ℕ → List DestRow
enabled_rows rows [] = []
enabled_rows rows (id ∷ ids) = option_list (enabled_row rows id) ++ enabled_rows rows ids

-- The loop at the end: a row whose kind serde refuses is passed over.
unfoldable pub parsed : List DestRow → List Destination
parsed [] = []
parsed (row ∷ rows) =
    option_list (
      row.kind >>= (λ kind. some (record {
        id = unwrap_or row.id 0;
        name = row.name;
        kind = kind;
        enabled = not (row.enabled == 0);
      })))
    ++ parsed rows

abbrev pub rows_of : String ⊎ List DestRow → List DestRow
rows_of (inl e) = []
rows_of (inr rows) = rows

-- No selection selects every enabled row.
abbrev pub chosen_rows : List DestRow → List ℕ → List DestRow
chosen_rows rows [] = keep_if (λ r. r.enabled == 1) rows
chosen_rows rows (id ∷ ids) = enabled_rows rows (id ∷ ids)

unfoldable pub load_destinations : Tables → String ⊎ List DestRow → ℕ → List Destination
load_destinations t destinations id = parsed (
    chosen_rows (rows_of destinations)
      (unwrap_or (t.schedule id >>= (λ row. row.destination_ids)) []))
