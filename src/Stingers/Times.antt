-- ===== src/Stingers/Times.antt =====
-- A stinger that is made is the one that is given back: crates/api/src/routes/stingers.rs, `create` and `get_one`.
use shed.Prelude.{
  ◌/◌, ◌%◌, ◌⊎◌, map, ◌==◌, if◌then◌else◌, Bool-cases, Option-cases, unwrap_or, any, find?, ℕ, ◌<◌,
  String, ◌≡◌, refl, ap, inl, inr, false, Option, none, some, List, [], ◌∷◌, ◌++◌, arith,
}
use shed.Types.MuxshedError.{MuxshedError}
use shed.Types.{ℤ, pos, negsuc}
use shed.Stingers.{
  as_i64, as_u64, StingerAudio, silent, overlay, replace, duck, Serde, StingerRow, StingerConfig,
  UpdateStinger, into_config, row_of, is_stinger, get_one, new_config, create, updated, rewritten,
  update,
}

as_u64-i64 : (n : ℕ) → n < 18446744073709551616 → as_u64 (as_i64 n) ≡ n
unfolding as_u64 as_i64
as_u64-i64 n h = ground arith

-- Serde prints a behaviour whose number is infinite or none (the exponent's bits are all set) as a null, which it does not read.
abbrev pub IsFinite : StingerAudio → Type 0
IsFinite (duck bits) = (bits / 8388608 % 256 == 255) ≡ false
IsFinite silent = Unit
IsFinite overlay = Unit
IsFinite replace = Unit

abbrev pub ReadsFinite : Serde → Type 0
ReadsFinite sd = (a : StingerAudio) → IsFinite a → sd.parse (sd.print a) ≡ some a

-- The behaviour that an answer has is finite.
abbrev pub AnswersFinite : MuxshedError ⊎ StingerConfig → Type 0
AnswersFinite (inl e) = Unit
AnswersFinite (inr c) = IsFinite c.audio_behaviour

-- Every time fits a `u64`.
pub record IsTimed (c : StingerConfig) : Type 0 where
  pub duration : c.duration_ms < 18446744073709551616
  pub start : c.start_ms < 18446744073709551616
  pub opaque_at : c.opaque_ms < 18446744073709551616
  pub clear : c.clear_ms < 18446744073709551616
  pub end : c.end_ms < 18446744073709551616

into_config-row_of :
    (sd : Serde) (c : StingerConfig)
    → IsTimed c
    → sd.parse (sd.print c.audio_behaviour) ≡ some c.audio_behaviour
    → into_config sd (row_of sd c) ≡ c
unfolding into_config row_of
into_config-row_of sd c t read =
    rw
      (
        as_u64-i64 c.duration_ms t.duration,
        as_u64-i64 c.start_ms t.start,
        as_u64-i64 c.opaque_ms t.opaque_at,
        as_u64-i64 c.clear_ms t.clear,
        as_u64-i64 c.end_ms t.end,
        read,
      )
      refl

find_last :
    (id : ℕ) (rows : List StingerRow) (row : StingerRow)
    → any (is_stinger id) rows ≡ false
    → row.id ≡ id
    → find? (is_stinger id) (rows ++ (row ∷ [])) ≡ some row
find_last id [] row fresh e = ground (arith, e)
find_last id (r ∷ rows) row fresh e = elim (Bool-cases (r.id == id)) [
  | inl same ↦ ground (arith, fresh, same)
  | inr other ↦ rw other (find_last id rows row (rw other at fresh) e)
]

-- A stinger that is created under a new id is the one that is then given back: its name, its file, its times up to 2^64, and its
-- audio behaviour, when this is finite and serde reads the finite ones that it prints.
pub get_one-create :
    (sd : Serde) (id : ℕ) (name file_path : String) (duration_ms : Option ℕ) (u : UpdateStinger)
    (rows : List StingerRow)
    → ReadsFinite sd
    → any (is_stinger id) rows ≡ false
    → IsTimed (new_config id name file_path duration_ms u)
    → IsFinite (unwrap_or u.audio_behaviour silent)
    → let (c, rows') = create sd id name file_path duration_ms u rows in get_one sd id rows' ≡ inr c
unfolding create row_of new_config get_one
get_one-create sd id name file_path duration_ms u rows reads fresh t finite =
    let c = new_config id name file_path duration_ms u in
    rw (get_one, find_last id rows (row_of sd c) fresh refl)
      (ap inr (into_config-row_of sd c t (reads c.audio_behaviour finite)))

updated_rows :
    (sd : Serde) (id : ℕ) (c : StingerConfig) (rows : List StingerRow) (r : StingerRow)
    → find? (is_stinger id) rows ≡ some r
    → find? (is_stinger id) (map (λ x. if is_stinger id x then rewritten sd c x else x) rows)
      ≡ some (rewritten sd c r)
unfolding rewritten
updated_rows sd id c [] r h = cc
updated_rows sd id c (x ∷ rows) r h = elim (Bool-cases (x.id == id)) [
  | inl same ↦ ground (arith, same, h)
  | inr other ↦ rw (other, other) (updated_rows sd id c rows r (rw other at h))
]

other_rows :
    (sd : Serde) (id j : ℕ) (c : StingerConfig) (rows : List StingerRow)
    → (j == id) ≡ false
    → find? (is_stinger j) (map (λ x. if is_stinger id x then rewritten sd c x else x) rows)
      ≡ find? (is_stinger j) rows
unfolding rewritten
other_rows sd id j c [] other = refl
other_rows sd id j c (r ∷ rows) other = ground (arith, other_rows sd id j c rows other)

as_u64-bound : (n : ℤ) → as_u64 n < 18446744073709551616
unfolding as_u64
as_u64-bound (pos n) = ground arith
as_u64-bound (negsuc n) = ground arith

-- What a request of an update gives fits a `u64`.
pub record IsGiven (u : UpdateStinger) : Type 0 where
  pub start : unwrap_or u.start_ms 0 < 18446744073709551616
  pub opaque_at : unwrap_or u.opaque_ms 0 < 18446744073709551616
  pub clear : unwrap_or u.clear_ms 0 < 18446744073709551616
  pub end : unwrap_or u.end_ms 0 < 18446744073709551616

given_or :
    (o : Option ℕ) (n : ℤ)
    → unwrap_or o 0 < 18446744073709551616
    → unwrap_or o (as_u64 n) < 18446744073709551616
given_or none n h = as_u64-bound n
given_or (some m) n h = h

module _ (sd : Serde) (reads : ReadsFinite sd) where
  into_config-rewritten :
      (u : UpdateStinger) (r : StingerRow)
      → IsGiven u
      → IsFinite (updated sd u r).audio_behaviour
      → into_config sd (rewritten sd (updated sd u r) r) ≡ updated sd u r
  unfolding into_config rewritten updated
  into_config-rewritten u r g finite =
      let c = updated sd u r in
      rw
        (
          as_u64-i64 c.start_ms (given_or u.start_ms r.start_ms g.start),
          as_u64-i64 c.opaque_ms (given_or u.opaque_ms r.opaque_ms g.opaque_at),
          as_u64-i64 c.clear_ms (given_or u.clear_ms r.clear_ms g.clear),
          as_u64-i64 c.end_ms (given_or u.end_ms r.end_ms g.end),
          reads c.audio_behaviour finite,
        )
        refl

  -- What an update of a stinger answers is what is then given back, an error too, and every other stinger stays as it is. The
  -- times that the request gives fit 64 bits, the audio behaviour that is answered is finite, and serde reads the finite ones that
  -- it prints.
  pub get_one-update :
      (id : ℕ) (u : UpdateStinger) (rows : List StingerRow)
      → IsGiven u
      → AnswersFinite (update sd id u rows).0
      → let (answer, rows') = update sd id u rows in
        (get_one sd id rows' ≡ answer)
        × ((j : ℕ) → (j == id) ≡ false → get_one sd j rows' ≡ get_one sd j rows)
  unfolding get_one update
  get_one-update id u rows g finite = elim (Option-cases (find? (is_stinger id) rows)) [
    | inl absent ↦ rw (update, absent) (rw (get_one, absent) refl, λ j other. refl)
    | inr (r, found) ↦
        rw (update, found)
          (
            rw (get_one, updated_rows sd id (updated sd u r) rows r found)
                (ap inr (into_config-rewritten u r g (rw (update, found) at finite))),
            λ j other. rw (get_one, other_rows sd id j (updated sd u r) rows other) refl,
          )
  ]
