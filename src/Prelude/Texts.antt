-- ===== src/Prelude/Texts.antt =====
-- Texts: `format!` on texts and on `u32` numbers.
use Prim.Native.Nat.{ℕ, zero, suc, ◌+◌, ◌/◌, ◌%◌}
use Prim.Native.Char.{code}
use Prim.Native.String.{String, ◌++◌}
use mathlib.Core.List.{List, [], ◌∷◌}
use text.Mathlib.Text.{◌==◌}
use mathlib.Core.Bool.{Bool, true, false, ◌&&◌, ◌||◌}
use mathlib.Core.Option.{Option, none, some}
use shed.Prelude.Tests.{ltb, leb, if◌then◌else◌, ◌==◌ as nat_eq}
use shed.Prelude.Lists.{get_or}

abbrev pub concat : List String → String
concat [] = ""
concat (s ∷ texts) = s ++ concat texts

digits : List String
digits = "0" ∷ "1" ∷ "2" ∷ "3" ∷ "4" ∷ "5" ∷ "6" ∷ "7" ∷ "8" ∷ "9" ∷ []

decimal_digits : ℕ → ℕ → String
unfolding digits
decimal_digits zero n = ""
decimal_digits (suc fuel) n =
    let rest = decimal_digits fuel (n / 10) in
    let digit = get_or digits (n % 10) "" in if ltb n 10 then digit else rest ++ digit

-- A `u32` has ten digits at most.
unfoldable pub decimal : ℕ → String
unfolding decimal_digits
decimal n = decimal_digits 10 n

-- `==` of two texts, and Rust's `eq_ignore_ascii_case`.
abbrev pub string_eq : String → String → Bool
string_eq s t = s == t

abbrev pub ascii_lower : ℕ → ℕ
ascii_lower c = if leb 65 c && leb c 90 then c + 32 else c

abbrev pub lower : String → List ℕ
lower String.[] = []
lower (String.◌∷◌ c s) = ascii_lower (code c) ∷ lower s

abbrev pub codes_eq : List ℕ → List ℕ → Bool
codes_eq [] [] = true
codes_eq (a ∷ xs) (b ∷ ys) = nat_eq a b && codes_eq xs ys
codes_eq [] (b ∷ ys) = false
codes_eq (a ∷ xs) [] = false

unfoldable pub eq_ignore_ascii_case : String → String → Bool
eq_ignore_ascii_case s t = codes_eq (lower s) (lower t)

-- Rust's `strip_prefix`.
unfoldable pub strip_prefix : String → String → Option String
strip_prefix String.[] s = some s
strip_prefix (String.◌∷◌ c p) String.[] = none
strip_prefix (String.◌∷◌ c p) (String.◌∷◌ d s) =
    let rest = strip_prefix p s in if nat_eq (code c) (code d) then rest else none

-- White space of Unicode below U+2000, and the spaces above.
abbrev is_white : ℕ → Bool
is_white c =
    (leb 9 c && leb c 13)
    || nat_eq c 32
    || nat_eq c 133
    || nat_eq c 160
    || nat_eq c 5760
    || (leb 8192 c && leb c 8202)
    || nat_eq c 8232
    || nat_eq c 8233
    || nat_eq c 8239
    || nat_eq c 8287
    || nat_eq c 12288

trim_start : String → String
trim_start String.[] = ""
trim_start (String.◌∷◌ c s) =
    let rest = trim_start s in if is_white (code c) then rest else String.◌∷◌ c s

trim_end : String → String
trim_end String.[] = ""
trim_end (String.◌∷◌ c s) =
    let rest = trim_end s in
    if is_white (code c) && string_eq rest "" then "" else String.◌∷◌ c rest

-- Rust's `trim`.
unfoldable pub trim : String → String
unfolding trim_start trim_end
trim s = trim_end (trim_start s)

-- Rust's `split_whitespace().count()`; the flag says that a word has begun.
count_words : Bool → String → ℕ
count_words begun String.[] = 0
count_words begun (String.◌∷◌ c s) =
    let white = is_white (code c) in
    let rest = count_words (if white then false else true) s in
    if white then rest else if begun then rest else suc rest

unfoldable pub word_count : String → ℕ
unfolding count_words
word_count s = count_words false s
