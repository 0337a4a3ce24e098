-- ===== src/Auth/Access.antt =====
-- Who is let in: crates/api/src/auth.rs with the log-in and log-out of crates/api/src/routes/auth.rs.
use shed.Prelude.{
  ltb, Bool-cases, Option-cases, keep_if, any, find?, ℕ, ◌+◌, String, ◌≡◌, refl, ap, ◌∙◌, ◌⊎◌, inl,
  inr, true, false, not, none, some, List, [], ◌∷◌, arith, string_eq,
}
use text.Mathlib.TextPositions.{eq_refl}
use mathlib.Core.Path.{subst}
use shed.Types.MuxshedError.{MuxshedError}
use shed.Auth.{
  Session, Db, Crypto, Request, is_open, validate_session, validate_api_key, auth_middleware,
  thirty_days, login, logout, extract_bearer_token,
}
use shed.Auth.Users.{create_key}

-- A request with a session's token as its parameter, and nothing else.
abbrev pub with_token : String → Request
with_token token = record {
  api_key_header = none;
  authorization = none;
  management_token = none;
  token_param = some token;
  key_param = none;
}

string_eq_refl : (s : String) → string_eq s s ≡ true
string_eq_refl s = eq_refl s

-- No session has the token.
abbrev pub IsFresh : String → Db → Type 0
IsFresh token db = any (λ s. string_eq s.token token) db.sessions ≡ false

fresh_closed :
    (now : ℕ) (token : String) (sessions : List Session)
    → any (λ s. string_eq s.token token) sessions ≡ false
    → any (is_open now token) sessions ≡ false
fresh_closed now token [] h = refl
fresh_closed now token (s ∷ sessions) h =
    let ih = fresh_closed now token sessions in ground (arith, h, ih)

logged_out :
    (now : ℕ) (token : String) (sessions : List Session)
    → any (is_open now token) (keep_if (λ s. not (string_eq s.token token)) sessions) ≡ false
logged_out now token [] = refl
logged_out now token (s ∷ sessions) = ground (arith, logged_out now token sessions)

-- What a log-in that succeeds leaves.
abbrev pub LoggedIn : ℕ → String → Db → (MuxshedError ⊎ Session) × Db → Type 0
LoggedIn now token db (inl e, db') = db' ≡ db
LoggedIn now token db (inr session, db') =
    (db' ≡ record db { sessions = session ∷ db.sessions })
    × (session.token ≡ token)
    × (session.expires_at ≡ now + thirty_days)

login-LoggedIn :
    (c : Crypto) (now : ℕ) (token username password : String) (db : Db)
    → LoggedIn now token db (login c now token username password db)
unfolding login
login-LoggedIn c now token username password db =
    elim (Option-cases (find? (λ u. string_eq u.username username) db.users)) [
      | inl e ↦ rw (login, e) refl
      | inr (user, e) ↦ elim (Bool-cases (c.verify_password password user.password_hash)) [
        | inl q ↦ rw (login, e, q) (refl, refl, refl)
        | inr q ↦ rw (login, e, q) refl
      ]
    ]

-- A new session lets its own token in until it is over.
session_opens :
    (t : ℕ) (token : String) (session : Session) (db : Db)
    → IsFresh token db
    → session.token ≡ token
    → validate_session t (record db { sessions = session ∷ db.sessions }) token
      ≡ ltb t session.expires_at
unfolding validate_session
session_opens t token session db fresh same =
    let own : string_eq session.token token ≡ true =
      ap (λ s. string_eq s token) same ∙ string_eq_refl token in
    ground (arith, own, fresh_closed t token db.sessions fresh)

token_only :
    (c : Crypto) (t : ℕ) (db : Db) (token : String)
    → auth_middleware c t db (with_token token) ≡ validate_session t db token
unfolding auth_middleware extract_bearer_token
token_only c t db token = ground arith

-- A log-in gives a session that lets its token in until thirty days later, and no longer; once it is
-- logged out, its token is let in no more. The token is new.
pub login-lets_in :
    (c : Crypto) (now : ℕ) (token username password : String) (db : Db) (session : Session) (t : ℕ)
    → IsFresh token db
    → (login c now token username password db).0 ≡ inr session
    → let db' = (login c now token username password db).1 in
      (auth_middleware c t db' (with_token token) ≡ ltb t (now + thirty_days))
      × (auth_middleware c t (logout token db') (with_token token) ≡ false)
unfolding logout validate_session
login-lets_in c now token username password db session t fresh ok =
    let db' = (login c now token username password db).1 in
    let (stored, same, expires) =
      subst (λ r. LoggedIn now token db (r, db')) ok
        (login-LoggedIn c now token username password db) in
    (
      token_only c t db' token
          ∙ ap (λ d. validate_session t d token) stored
          ∙ session_opens t token session db fresh same
          ∙ ap (ltb t) expires,
      token_only c t (logout token db') token ∙ logged_out t token db'.sessions,
    )

-- A new key lets its requests in.
pub create_key-lets_in :
    (c : Crypto) (id now : ℕ) (key name : String) (scopes : List String) (db : Db) (r : Request)
    → r.api_key_header ≡ some key
    → auth_middleware c now (create_key c id key name scopes db) r ≡ true
unfolding auth_middleware create_key validate_api_key
create_key-lets_in c id now key name scopes db r h =
    ground (arith, h, string_eq_refl (c.hash_key key))
