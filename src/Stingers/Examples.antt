-- ===== src/Stingers/Examples.antt =====
-- Tests and instances for the stingers.
use shed.Prelude.{
  zero, suc, if◌then◌else◌, ◌==◌, string_eq, ℕ, String, ◌≡◌, refl, false, ltb, Option, none, some,
  [], ◌∷◌, arith,
}
use Prim.Native.Char.{code}
use shed.Types.{pos, negsuc}
use shed.Stingers.{
  StingerAudio, silent, overlay, replace, duck, Serde, StingerRow, UpdateStinger, get_one, updated,
  update,
}
use shed.Stingers.Names.{sanitize_filename, take_safe}
use shed.Stingers.Times.{get_one-update}

-- A behaviour in unary, behind a letter for the duck.
abbrev ducks : ℕ → String
ducks zero = "d"
ducks (suc n) = String.◌∷◌ "i" (ducks n)

abbrev unducks : String → Option ℕ
unducks String.[] = none
unducks (String.◌∷◌ c s) = elim (unducks s) [
  | none ↦ if string_eq (String.◌∷◌ c s) "d" then some 0 else none
  | some n ↦ some (suc n)
]

unducks-ducks : (n : ℕ) → unducks (ducks n) ≡ some n
unducks-ducks zero = refl
unducks-ducks (suc n) = rw (unducks-ducks n) refl

abbrev print : StingerAudio → String
print silent = "s"
print overlay = "o"
print replace = "r"
print (duck bits) = ducks bits

abbrev parse : String → Option StingerAudio
parse String.[] = none
parse (String.◌∷◌ c s) =
    let ducked : Option StingerAudio = elim (unducks (String.◌∷◌ c s)) [
      | none ↦ none
      | some n ↦ some (duck n)
    ] in
    if code c == 115
    then some silent
    else if code c == 111
    then some overlay
    else if code c == 114
    then some replace
    else ducked

abbrev serde : Serde
serde = record { print = print; parse = parse }

parse-print : (a : StingerAudio) → parse (print a) ≡ some a
parse-print silent = refl
parse-print overlay = refl
parse-print replace = refl
parse-print (duck zero) = refl
parse-print (duck (suc n)) = rw (unducks-ducks n) refl

abbrev given : UpdateStinger
given = record {
  name = none;
  start_ms = some 100;
  opaque_ms = some 400;
  clear_ms = none;
  end_ms = none;
  audio_behaviour = some (duck 3);
}

-- The row 1 has a negative time, which is read as a large one.
abbrev wipe : StingerRow
wipe = record {
  id = 1;
  name = "wipe";
  file_path = "w.webm";
  duration_ms = pos 900;
  start_ms = pos 0;
  opaque_ms = pos 0;
  clear_ms = negsuc 0;
  end_ms = pos 900;
  audio_behaviour = "?";
  thumbnail_path = "";
}

no_path_in_name : sanitize_filename (λ c. ltb 96 c) "../a b" ≡ "___a_b"
unfolding sanitize_filename take_safe
no_path_in_name = refl

get_one-update_example :
    let (answer, rows) = update serde 1 given (wipe ∷ []) in
    (get_one serde 1 rows ≡ answer)
    × ((j : ℕ) → (j == 1) ≡ false → get_one serde j rows ≡ get_one serde j (wipe ∷ []))
unfolding update updated
get_one-update_example =
    get_one-update serde (λ a finite. parse-print a) 1 given (wipe ∷ [])
      (record {
        start = omega arith;
        opaque_at = omega arith;
        clear = omega arith;
        end = omega arith;
      })
      refl
