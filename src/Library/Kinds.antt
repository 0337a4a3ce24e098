-- ===== src/Library/Kinds.antt =====
-- What kind of media a file is, and its name: crates/api/src/routes/assets.rs, `upload_asset`. The extension is in lower case.
use Prim.Native.Char.{Char, code}
use shed.Prelude.{
  ◌==◌, not, ◌&&◌, ℕ, if◌then◌else◌, any, String, Bool, List, [], ◌∷◌, string_eq, strip_prefix,
  is_some,
}

abbrev pub one_of : List String → String → Bool
one_of texts s = any (λ t. string_eq s t) texts

-- `starts_with`.
abbrev pub starts_with : String → String → Bool
starts_with s prefix = is_some (strip_prefix prefix s)

unfoldable pub asset_type_of : String → String → String
asset_type_of ext content_type =
    if one_of ("png" ∷ "jpg" ∷ "jpeg" ∷ "gif" ∷ "svg" ∷ "webp" ∷ []) ext
    then "image"
    else if one_of ("webm" ∷ "mov" ∷ []) ext
    then "stinger"
    else if one_of ("mp4" ∷ "mkv" ∷ "avi" ∷ []) ext
    then "video"
    else if starts_with content_type "image/"
    then "image"
    else "video"

unfoldable pub mime_of : String → String → String
mime_of ext content_type =
    if string_eq ext "png"
    then "image/png"
    else if one_of ("jpg" ∷ "jpeg" ∷ []) ext
    then "image/jpeg"
    else if string_eq ext "gif"
    then "image/gif"
    else if string_eq ext "svg"
    then "image/svg+xml"
    else if string_eq ext "webp"
    then "image/webp"
    else if string_eq ext "webm"
    then "video/webm"
    else if string_eq ext "mov"
    then "video/quicktime"
    else if string_eq ext "mp4"
    then "video/mp4"
    else content_type

abbrev pub clean_char : (ℕ → Bool) → Char → Char
clean_char alphanumeric c =
    let n = code c in
    if (((not (alphanumeric n) && not (n == 45)) && not (n == 95)) && not (n == 46)) then "_" else c

-- The name of an upload that gives none.
unfoldable pub clean_name : (ℕ → Bool) → String → String
clean_name alphanumeric String.[] = ""
clean_name alphanumeric (String.◌∷◌ c s) =
    String.◌∷◌ (clean_char alphanumeric c) (clean_name alphanumeric s)
