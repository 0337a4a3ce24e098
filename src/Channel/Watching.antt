-- ===== src/Channel/Watching.antt =====
-- Who may watch, and what: crates/api/src/routes/channel.rs.
use shed.Prelude.{
  List, [], ◌∷◌, any, Bool-cases, Option-cases, inl, inr, ◌⊎◌, trim, concat, is_some, ◌∙◌, ap, none,
  ◌==◌, if◌then◌else◌, ℕ, ◌≡◌, refl, Bool, true, false, not, ◌&&◌, ◌||◌, Option, some, arith, ◌>>=◌,
  &&-eq-true, string_eq,
}
use text.Mathlib.TextEquality.{eq_iff}
use Prim.Native.Char.{code}
use Prim.Native.String.{String}
use shed.Stream.{World, ensure_channel_hls, hls_start, broadcasting}
use shed.Channel.{
  split_once, split_on, is_cookie, cookie_present, token_of, Channel, Hashes, is_token,
  check_cookie, is_name_char, all_name_chars, valid_segment, serve_segment, regenerate_token,
  serve_playlist, unlock, ends_with,
}

-- A character's code is in a text.
abbrev pub has_code : ℕ → String → Bool
has_code c String.[] = false
has_code c (String.◌∷◌ d s) = let rest = has_code c s in (code d == c) || rest

slash_is_no_name_char : (c : ℕ) → is_name_char c ≡ true → (c == 47) ≡ false
slash_is_no_name_char c h = ground (arith, h)

all_name_chars-no_slash : (s : String) → all_name_chars s ≡ true → has_code 47 s ≡ false
unfolding all_name_chars
all_name_chars-no_slash String.[] h = refl
all_name_chars-no_slash (String.◌∷◌ c s) h =
    let (first, rest) = &&-eq-true (is_name_char (code c)) (all_name_chars s) h in
    let ih = all_name_chars-no_slash s rest in
    let here = slash_is_no_name_char (code c) first in ground (arith, ih, here)

valid_segment-no_slash : (s : String) → valid_segment s ≡ true → has_code 47 s ≡ false
unfolding valid_segment
valid_segment-no_slash s h =
    let name =
      (&&-eq-true (not (string_eq s "") && all_name_chars s)
        (ends_with s ".ts" || ends_with s ".m4s") h).0 in
    all_name_chars-no_slash s (&&-eq-true (not (string_eq s "")) (all_name_chars s) name).1

all_gates :
    (a b v f : Bool)
    → ◌≡◌ {A = ℕ}
        (if not a
          then 404
          else if not b
          then 403
          else if not v
          then 404
          else if f
          then 200
          else 404)
        200
    → (a ≡ true) × (b ≡ true) × (v ≡ true) × (f ≡ true)
all_gates a b v f h = ground (arith, h)

-- One of the parts of a cookie header is the cookie.
abbrev pub Carries : (name value : String) → List String → Type 0
Carries name value [] = ⊥
Carries name value (part ∷ parts) =
    (split_once 61 (trim part) ≡ some (name, value)) ⊎ Carries name value parts

is_cookie-split_once :
    (name value part : String)
    → is_cookie name value part ≡ true
    → split_once 61 (trim part) ≡ some (name, value)
is_cookie-split_once name value part h = elim (Option-cases (split_once 61 (trim part))) [
  | inl e ↦ absurd (ground (arith, h, e))
  | inr ((k, v), e) ↦
      let (same_name, same_value) =
        &&-eq-true (string_eq k name) (string_eq v value) (rw (is_cookie, e) at h) in
      e
      ∙ ap (λ n. some (n, v)) ((eq_iff k name).0 same_name)
      ∙ ap (λ w. some (name, w)) ((eq_iff v value).0 same_value)
]

any_cookie-Carries :
    (name value : String) (parts : List String)
    → any (is_cookie name value) parts ≡ true
    → Carries name value parts
any_cookie-Carries name value [] h = cc
any_cookie-Carries name value (part ∷ parts) h = elim (Bool-cases (is_cookie name value part)) [
  | inl e ↦ inl (is_cookie-split_once name value part e)
  | inr e ↦ inr (any_cookie-Carries name value parts (ground (arith, h, e)))
]

-- The header has the cookie of the channel, whose value is the hash of the password's hash and the token.
abbrev pub HasCookie : Hashes → (hash token : String) → Option String → Type 0
HasCookie h hash token none = ⊥
HasCookie h hash token (some cookies) =
    Carries (concat ("mxs_watch_" ∷ token ∷ [])) (h.sha256 (concat (hash ∷ token ∷ [])))
      (split_on 59 cookies)

check_cookie-HasCookie :
    (h : Hashes) (c : Channel) (cookies : Option String) (hash : String)
    → check_cookie h c cookies ≡ true
    → c.password_hash ≡ some hash
    → HasCookie h hash (token_of c) cookies
unfolding check_cookie cookie_present
check_cookie-HasCookie h c none hash passed locked = ground (arith, passed, locked)
check_cookie-HasCookie h c (some cookies) hash passed locked =
    any_cookie-Carries _ _ (split_on 59 cookies) (ground (arith, passed, locked))

-- A segment is served only under the token of the channel's row, when the channel has a password only
-- to a request whose cookies include the one that an unlock with the password sets, and only a file
-- that is there under a name without a slash, so that it lies in the channel's directory.
pub served_segment_stays :
    (h : Hashes) (file : String → Bool) (token segment : String) (cookies : Option String)
    (c : Channel)
    → serve_segment h file token segment cookies c ≡ 200
    → (is_some c.studio.db.channel ≡ true)
      × (token_of c ≡ token)
      × ((hash : String) → c.password_hash ≡ some hash → HasCookie h hash (token_of c) cookies)
      × (file segment ≡ true)
      × (has_code 47 segment ≡ false)
unfolding serve_segment
served_segment_stays h file token segment cookies c served =
    let (known, passed, valid, there) =
      all_gates (is_token token c) (check_cookie h c cookies) (valid_segment segment) (file segment)
        served in
    (
      ground (arith, known),
      (eq_iff (token_of c) token).0 (ground (arith, known)),
      λ hash locked. check_cookie-HasCookie h c cookies hash passed locked,
      there,
      valid_segment-no_slash segment valid,
    )

-- Once the token is new, the old one opens nothing, and a page that is on air is written anew
-- under the new token, where its encoder starts.
new_token_replaces :
    (h : Hashes) (w : World) (old new password : String) (cookies : Option String) (file : Bool)
    (enabled : ℕ) (c : Channel)
    → string_eq new old ≡ false
    → c.studio.db.channel ≡ some (enabled, old)
    → not (enabled == 0) && broadcasting c.studio.pipeline.state ≡ true
    → w.hls_starts new ≡ true
    → let c' = regenerate_token w new c in
      (serve_playlist h file old cookies c' ≡ 404)
      × ((unlock h old password c').0 ≡ 404)
      × ((c'.studio.channel_hls >>= (λ p. some p.token)) ≡ some new)
unfolding regenerate_token serve_playlist unlock ensure_channel_hls hls_start
new_token_replaces h w old new password cookies file enabled c other row on starts =
    let same =
      ap {B = ℕ} (λ r. elim r [ none ↦ 0 | some r ↦ r.0 ]) {x = c.studio.db.channel}
        {y = some (enabled, old)} row in
    (ground (arith, other), ground (arith, other), rw (same, on, starts) refl)
