-- ===== src/Stingers/Names.antt =====
-- The names of stored files: crates/api/src/routes/stingers.rs, `sanitize_filename`. What is alphanumeric is the standard library's.
use shed.Prelude.{
  Bool-cases, inl, inr, ◌&&◌, ◌==◌, if◌then◌else◌, ℕ, zero, suc, ◌≤◌, String, ◌≡◌, refl, Bool, true,
  ◌||◌, arith,
}
use Prim.Native.Char.{Char, code}

abbrev pub is_safe : (ℕ → Bool) → ℕ → Bool
is_safe alphanumeric c = (alphanumeric c || (c == 45)) || (c == 95)

abbrev pub safe_char : (ℕ → Bool) → Char → Char
safe_char alphanumeric c = if is_safe alphanumeric (code c) then c else "_"

-- The first `n` characters of the name with what is not safe replaced.
unfoldable pub take_safe : (ℕ → Bool) → ℕ → String → String
take_safe alphanumeric zero s = ""
take_safe alphanumeric (suc n) String.[] = ""
take_safe alphanumeric (suc n) (String.◌∷◌ c s) =
    String.◌∷◌ (safe_char alphanumeric c) (take_safe alphanumeric n s)

unfoldable pub sanitize_filename : (ℕ → Bool) → String → String
sanitize_filename alphanumeric name = take_safe alphanumeric 50 name

abbrev pub all_chars : (ℕ → Bool) → String → Bool
all_chars p String.[] = true
all_chars p (String.◌∷◌ c s) = p (code c) && all_chars p s

abbrev pub char_count : String → ℕ
char_count String.[] = 0
char_count (String.◌∷◌ c s) = suc (char_count s)

module _ (alphanumeric : ℕ → Bool) where
  safe_char-is_safe : (c : Char) → is_safe alphanumeric (code (safe_char alphanumeric c)) ≡ true
  safe_char-is_safe c = elim (Bool-cases (is_safe alphanumeric (code c))) [
    | inl h ↦ rw h h
    | inr h ↦ rw h (ground arith)
  ]

  take_safe-IsSafe :
      (n : ℕ) (s : String)
      → (all_chars (is_safe alphanumeric) (take_safe alphanumeric n s) ≡ true)
        × (char_count (take_safe alphanumeric n s) ≤ n)
  unfolding take_safe
  take_safe-IsSafe zero s = (refl, omega arith)
  take_safe-IsSafe (suc n) String.[] = (refl, omega arith)
  take_safe-IsSafe (suc n) (String.◌∷◌ c s) =
      let (safe, few) = take_safe-IsSafe n s in (rw (safe_char-is_safe c) safe, omega arith)

  -- A file's name keeps at most 50 characters, of which each is alphanumeric, a dash or an underscore: no separator of a path.
  pub sanitize_filename-IsSafe :
      (name : String)
      → (all_chars (is_safe alphanumeric) (sanitize_filename alphanumeric name) ≡ true)
        × (char_count (sanitize_filename alphanumeric name) ≤ 50)
  unfolding sanitize_filename
  sanitize_filename-IsSafe name = take_safe-IsSafe 50 name
