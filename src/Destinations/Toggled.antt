-- ===== src/Destinations/Toggled.antt =====
-- What a broadcast is sent to after a destination is enabled or disabled: crates/api/src/routes/destinations.rs with
-- crates/api/src/routes/stream.rs.
use shed.Prelude.{
  ◌==◌, if◌then◌else◌, Bool-cases, any, keep_if, ℕ, ◌<◌, ◌≡◌, refl, inl, inr, Bool, true, false,
  not, Option, none, some, List, [], ◌∷◌, map, arith,
}
use shed.Types.{Destination}
use shed.Types.MuxshedError.{MuxshedError}
use shed.Stream.{DestRow, into_destination, selected}
use shed.Destinations.{Outputs, is_id, as_i32, set_enabled}

abbrev pub sends_to : ℕ → Destination → Bool
sends_to id d = d.id == id

abbrev switched : ℕ → Bool → List DestRow → List DestRow
switched id enabled rows =
    map (λ r. if is_id id r then record r { enabled = as_i32 enabled } else r) rows

module _ (id : ℕ) (positive : 0 < id) where
  disabled-unchosen :
      (rows : List DestRow) → any (sends_to id) (selected [] (switched id false rows)) ≡ false
  unfolding selected into_destination
  disabled-unchosen [] = refl
  disabled-unchosen (r ∷ rows) = ground (arith, positive, disabled-unchosen rows)

  enabled-chosen :
      (rows : List DestRow)
      → any (is_id id) rows ≡ true
      → any (sends_to id) (selected [] (switched id true rows)) ≡ true
  unfolding selected into_destination
  enabled-chosen [] h = cc
  enabled-chosen (r ∷ rows) h = ground (arith, positive, h, enabled-chosen rows)

  others-switched :
      (enabled : Bool) (rows : List DestRow)
      → keep_if (λ d. not (sends_to id d)) (selected [] (switched id enabled rows))
        ≡ keep_if (λ d. not (sends_to id d)) (selected [] rows)
  unfolding selected into_destination
  others-switched enabled [] = refl
  others-switched enabled (r ∷ rows) = ground (arith, positive, others-switched enabled rows)

  chosen-switched :
      (enabled : Bool) (rows : List DestRow)
      → any (is_id id) rows ≡ true
      → any (sends_to id) (selected [] (switched id enabled rows)) ≡ enabled
  chosen-switched true rows there = enabled-chosen rows there
  chosen-switched false rows there = disabled-unchosen rows

-- What a request to enable or disable leaves, by its result: the next broadcast sends to the destination just when it is
-- enabled, and to the others as before; or there is no such row and nothing changes.
abbrev pub Toggled : ℕ → Bool → Outputs → Option MuxshedError × Outputs → Type 0
Toggled id enabled s (some e, s') = (any (is_id id) s.rows ≡ false) × (s' ≡ s)
Toggled id enabled s (none, s') =
    (any (sends_to id) (selected [] s'.rows) ≡ enabled)
    × (keep_if (λ d. not (sends_to id d)) (selected [] s'.rows)
        ≡ keep_if (λ d. not (sends_to id d)) (selected [] s.rows))

-- After a destination is enabled or disabled, a broadcast to all destinations sends to it just when it is enabled, and to the others
-- as before, in the same order; without a row nothing changes. The id is not the nil one.
pub set_enabled-Toggled :
    (id : ℕ) (enabled : Bool) (s : Outputs)
    → 0 < id
    → Toggled id enabled s (set_enabled id enabled s)
unfolding set_enabled
set_enabled-Toggled id enabled s positive = elim (Bool-cases (any (is_id id) s.rows)) [
  | inr absent ↦ rw (set_enabled, absent) (absent, refl)
  | inl there ↦
      rw (set_enabled, there)
        (
          chosen-switched id positive enabled s.rows there,
          others-switched id positive enabled s.rows,
        )
]
