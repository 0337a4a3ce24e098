-- ===== src/Channel.antt =====
-- crates/api/src/routes/channel.rs: the public watch page, its settings and who may watch it. The row of
-- `channel` is the studio's (`enabled`, the token) with the fields here; SHA-256 and bcrypt are given, and so are
-- new tokens. A query does not fail, and the row is there (`load_or_create`).
pub mod Watching
mod Examples
use shed.Prelude.{
  leb, ◌==◌, if◌then◌else◌, is_some, unwrap_or, any, ℕ, String, ◌⊎◌, inl, inr, Bool, true, false,
  not, ◌&&◌, ◌||◌, Option, none, some, List, [], ◌∷◌, concat, string_eq, trim,
}
use Prim.Native.Char.{code}
use shed.Types.MuxshedError.{MuxshedError, internal}
use shed.Stream.{Studio, World, ensure_channel_hls}

pub record Channel : Type 0 where
  pub studio : Studio
  pub title : String
  pub logo_path : Option String
  pub accent : Option String
  pub password_hash : Option String

-- `sha256` gives the digest as text.
pub record Hashes : Type 0 where
  pub sha256 : String → String
  pub hash_password : String → String ⊎ String
  pub verify_password : String → String → Bool

abbrev pub token_of : Channel → String
token_of c = elim c.studio.db.channel [ none ↦ "" | some row ↦ row.1 ]

abbrev pub enabled_of : Channel → ℕ
enabled_of c = elim c.studio.db.channel [ none ↦ 0 | some row ↦ row.0 ]

abbrev set_row : ℕ → String → Channel → Channel
set_row enabled token c = record c {
  studio = record c.studio { db = record c.studio.db { channel = some (enabled, token) } };
}

abbrev as_i64 : Bool → ℕ
as_i64 b = if b then 1 else 0

abbrev apply_hls : World → Channel → Channel
apply_hls w c = record c { studio = ensure_channel_hls w c.studio }

-- The body's fields; an accent that is given may be none.
unfoldable pub update_channel :
    World → Option Bool → Option String → Option (Option String) → Channel → Channel
update_channel w enabled title accent c =
    let stored =
      record (set_row (as_i64 (unwrap_or enabled (not (enabled_of c == 0)))) (token_of c) c) {
        title = unwrap_or title c.title;
        accent = unwrap_or accent c.accent;
      } in
    if is_some enabled then apply_hls w stored else stored

unfoldable pub regenerate_token : World → String → Channel → Channel
regenerate_token w token c = apply_hls w (set_row (enabled_of c) token c)

abbrev pub hashed : Channel → String ⊎ String → Option MuxshedError × Channel
hashed c (inl e) = (some (internal (concat ("password hash failed: " ∷ e ∷ []))), c)
hashed c (inr hash) = (none, record c { password_hash = some hash })

-- No password and an empty one take it away.
unfoldable pub set_password : Hashes → Option String → Channel → Option MuxshedError × Channel
set_password h none c = (none, record c { password_hash = none })
set_password h (some p) c =
    if string_eq p ""
    then (none, record c { password_hash = none })
    else hashed c (h.hash_password p)

-- The row with a token.
abbrev pub is_token : String → Channel → Bool
is_token token c = is_some c.studio.db.channel && string_eq (token_of c) token

abbrev pub watch_cookie_value : Hashes → String → String → String
watch_cookie_value h password_hash token = h.sha256 (concat (password_hash ∷ token ∷ []))

-- `split`, on a character's code.
unfoldable pub split_on : ℕ → String → List String
split_on c String.[] = "" ∷ []
split_on c (String.◌∷◌ d s) =
    let rest = split_on c s in
    if code d == c
    then "" ∷ rest
    else elim rest [ [] ↦ String.◌∷◌ d "" ∷ [] | part ∷ parts ↦ String.◌∷◌ d part ∷ parts ]

-- `split_once`.
unfoldable pub split_once : ℕ → String → Option (String × String)
split_once c String.[] = none
split_once c (String.◌∷◌ d s) =
    let rest = split_once c s in
    if code d == c
    then some ("", s)
    else elim rest [ none ↦ none | some (k, v) ↦ some (String.◌∷◌ d k, v) ]

-- The cookie is one of those of the header: 59 is `;` and 61 is `=`.
abbrev pub is_cookie : String → String → String → Bool
is_cookie name expected text = elim (split_once 61 (trim text)) [
  | none ↦ false
  | some (k, v) ↦ string_eq k name && string_eq v expected
]

unfoldable pub cookie_present : Option String → String → String → Bool
cookie_present none name expected = false
cookie_present (some cookies) name expected = any (is_cookie name expected) (split_on 59 cookies)

abbrev pub cookie_name : String → String
cookie_name token = concat ("mxs_watch_" ∷ token ∷ [])

-- A watcher is let through; otherwise the answer is 403.
unfoldable pub check_cookie : Hashes → Channel → Option String → Bool
check_cookie h c cookies = elim c.password_hash [
  | none ↦ true
  | some hash ↦
      cookie_present cookies (cookie_name (token_of c)) (watch_cookie_value h hash (token_of c))
]

-- The status, and the value of the cookie that is set.
unfoldable pub unlock : Hashes → String → String → Channel → ℕ × Option String
unlock h token password c = if not (is_token token c) then (404, none) else elim c.password_hash [
  | none ↦ (200, none)
  | some hash ↦
      if h.verify_password password hash
      then (200, some (watch_cookie_value h hash (token_of c)))
      else (401, none)
]

-- The status; `file` is whether the playlist is there.
unfoldable pub serve_playlist : Hashes → Bool → String → Option String → Channel → ℕ
serve_playlist h file token cookies c =
    if not (is_token token c)
    then 404
    else if not (check_cookie h c cookies)
    then 403
    else if file
    then 200
    else 404

-- ASCII letters and digits, `.`, `_` and `-`.
abbrev pub is_name_char : ℕ → Bool
is_name_char c =
    (leb 48 c && leb c 57)
    || (leb 65 c && leb c 90)
    || (leb 97 c && leb c 122)
    || (c == 46)
    || (c == 95)
    || (c == 45)

unfoldable pub all_name_chars : String → Bool
all_name_chars String.[] = true
all_name_chars (String.◌∷◌ c s) = let rest = all_name_chars s in is_name_char (code c) && rest

-- `ends_with`.
unfoldable pub ends_with : String → String → Bool
ends_with String.[] suffix = string_eq "" suffix
ends_with (String.◌∷◌ c s) suffix =
    let rest = ends_with s suffix in string_eq (String.◌∷◌ c s) suffix || rest

unfoldable pub valid_segment : String → Bool
valid_segment segment =
    (not (string_eq segment "") && all_name_chars segment)
    && (ends_with segment ".ts" || ends_with segment ".m4s")

unfoldable pub serve_segment :
    Hashes → (String → Bool) → String → String → Option String → Channel → ℕ
serve_segment h file token segment cookies c =
    if not (is_token token c)
    then 404
    else if not (check_cookie h c cookies)
    then 403
    else if not (valid_segment segment)
    then 404
    else if file segment
    then 200
    else 404
