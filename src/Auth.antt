-- ===== src/Auth.antt =====
-- crates/api/src/auth.rs with the log-in and log-out of crates/api/src/routes/auth.rs: who is let
-- in, and the rows of `users`, `sessions` and `api_keys` that decide it. SHA-256, bcrypt and the random
-- tokens are given; a query does not fail, but for the unique user name (migrations/004_auth.sql). An id is a
-- number and a time a number of seconds. The newest row is first.
pub mod Users
pub mod Access
pub mod Accounts
pub mod Sound
pub mod Histories
pub mod Demotion
mod Examples
use shed.Prelude.{
  ltb, if◌then◌else◌, keep_if, any, find?, ℕ, ◌+◌, String, ◌⊎◌, inl, inr, Bool, true, false, not,
  ◌&&◌, Option, none, some, List, ◌∷◌, ◌>>=◌, string_eq, strip_prefix,
}
use shed.Types.MuxshedError.{MuxshedError, unauthorized}

pub record User : Type 0 where
  pub id : ℕ
  pub username : String
  pub password_hash : String
  pub role : String

pub record Session : Type 0 where
  pub user_id : ℕ
  pub token : String
  pub expires_at : ℕ

pub record ApiKey : Type 0 where
  pub id : ℕ
  pub name : String
  pub key_hash : String
  pub scopes : List String

-- `system_token` is the hash of the configured token.
pub record Db : Type 0 where
  pub users : List User
  pub sessions : List Session
  pub api_keys : List ApiKey
  pub instance_name : Option String
  pub system_token : Option String

-- `hash_password` gives the error's text or the hash; `conflict` is the database's text for a name
-- that is taken.
pub record Crypto : Type 0 where
  pub hash_key : String → String
  pub hash_password : String → String ⊎ String
  pub verify_password : String → String → Bool
  pub conflict : String

-- What the checks read of a request.
pub record Request : Type 0 where
  pub api_key_header : Option String
  pub authorization : Option String
  pub management_token : Option String
  pub token_param : Option String
  pub key_param : Option String

unfoldable pub extract_bearer_token : Request → Option String
extract_bearer_token r = r.authorization >>= strip_prefix "Bearer "

abbrev pub is_open : ℕ → String → Session → Bool
is_open now token s = string_eq s.token token && ltb now s.expires_at

unfoldable pub validate_session : ℕ → Db → String → Bool
validate_session now db token = any (is_open now token) db.sessions

unfoldable pub validate_api_key : Crypto → Db → String → Bool
validate_api_key c db key = any (λ k. string_eq k.key_hash (c.hash_key key)) db.api_keys

abbrev pub validate_system_token : Crypto → String → String → Bool
validate_system_token c system_token_hash provided =
    string_eq (c.hash_key provided) system_token_hash

-- A check of a part that the request may have.
abbrev pub passes : (String → Bool) → Option String → Bool
passes check none = false
passes check (some value) = check value

abbrev pub is_system : Crypto → Db → String → Bool
is_system c db key = passes (λ hash. validate_system_token c hash key) db.system_token

-- The request is let through; otherwise the answer is 401.
unfoldable pub auth_middleware : Crypto → ℕ → Db → Request → Bool
auth_middleware c now db r =
    if passes (is_system c db) r.api_key_header
    then true
    else if passes (validate_session now db) (extract_bearer_token r)
    then true
    else if passes (validate_session now db) r.token_param
    then true
    else if passes (validate_api_key c db) r.api_key_header
    then true
    else passes (validate_api_key c db) r.key_param

unfoldable pub management_auth : Crypto → Db → Request → Bool
management_auth c db r = passes (is_system c db) r.management_token

abbrev pub thirty_days : ℕ
thirty_days = 2592000

-- `token` is the new session's.
unfoldable pub login : Crypto → ℕ → String → String → String → Db → (MuxshedError ⊎ Session) × Db
login c now token username password db =
    elim (find? (λ u. string_eq u.username username) db.users) [
      | none ↦ (inl (unauthorized "invalid credentials"), db)
      | some user ↦
          let session : Session = record {
            user_id = user.id;
            token = token;
            expires_at = now + thirty_days;
          } in
          if c.verify_password password user.password_hash
          then (inr session, record db { sessions = session ∷ db.sessions })
          else (inl (unauthorized "invalid credentials"), db)
    ]

unfoldable pub logout : String → Db → Db
logout token db = record db { sessions = keep_if (λ s. not (string_eq s.token token)) db.sessions }
