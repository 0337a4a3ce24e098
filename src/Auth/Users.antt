-- ===== src/Auth/Users.antt =====
-- The handlers of crates/api/src/routes/auth.rs, keys.rs and setup.rs that change users and keys.
use shed.Prelude.{
  ltb, leb, ◌==◌, if◌then◌else◌, or_else, unwrap_or, keep_if, any, find?, ℕ, suc, String, ◌⊎◌, inl,
  inr, Bool, true, not, ◌&&◌, ◌||◌, Option, none, some, List, [], ◌∷◌, map, ◌>>=◌, concat, decimal,
  string_eq, trim,
}
use Prim.Native.String.{len}
use shed.Auth.{User, Db, Crypto, Request, extract_bearer_token, is_open}
use shed.Types.MuxshedError.{MuxshedError, bad_request, unauthorized, not_found, internal, database}

-- The session of a token, with its user.
unfoldable pub session_user : ℕ → String → Db → Option User
session_user now token db =
    find? (is_open now token) db.sessions >>= (λ s. find? (λ u. u.id == s.user_id) db.users)

abbrev pub set_user : ℕ → (User → User) → List User → List User
set_user id change users = map (λ u. if u.id == id then change u else u) users

-- With the new password's hash, or the error of its hashing.
abbrev pub rehashed : User → Db → String ⊎ String → Option MuxshedError × Db
rehashed user db (inl e) = (some (internal e), db)
rehashed user db (inr hash) =
    (none, record db { users = set_user user.id (λ u. record u { password_hash = hash }) db.users })

-- After the user and the body are known; `current` and `new` are the body's passwords.
abbrev pub replace_password : Crypto → User → String → String → Db → Option MuxshedError × Db
replace_password c user current new db =
    if ltb (len new) 6
    then (some (bad_request "password must be at least 6 characters"), db)
    else if not (c.verify_password current user.password_hash)
    then (some (bad_request "current password is incorrect"), db)
    else rehashed user db (c.hash_password new)

-- The body is the two passwords, or the error of its reading.
unfoldable pub change_password :
    Crypto → ℕ → Request → String ⊎ (String × String) → Db → Option MuxshedError × Db
change_password c now r body db = elim (extract_bearer_token r) [
  | none ↦ (some (unauthorized "no session"), db)
  | some token ↦ elim (session_user now token db) [
    | none ↦ (some (unauthorized "invalid session"), db)
    | some user ↦ elim body [
      | inl e ↦ (some (bad_request e), db)
      | inr (current, new) ↦ replace_password c user current new db
    ]
  ]
]

unfoldable pub is_role : String → Bool
is_role role = string_eq role "admin" || string_eq role "write" || string_eq role "read"

abbrev pub added : ℕ → String → String → Db → String ⊎ String → Option MuxshedError × Db
added id username role db (inl e) = (some (internal e), db)
added id username role db (inr hash) = (
  none,
  record db {
    users = record { id = id; username = username; password_hash = hash; role = role } ∷ db.users;
  },
)

unfoldable pub create_user : Crypto → ℕ → String → String → String → Db → Option MuxshedError × Db
create_user c id username password role db =
    if string_eq (trim username) ""
    then (some (bad_request "username required"), db)
    else if ltb (len password) 6
    then (some (bad_request "password must be at least 6 characters"), db)
    else if not (is_role role)
    then (some (bad_request "role must be admin, write, or read"), db)
    else if any (λ u. string_eq u.username username) db.users
    then (some (bad_request "username already exists"), db)
    else added id username role db (c.hash_password password)

-- `UPDATE users SET …`, refused if another user has the name.
abbrev pub write_user : Crypto → ℕ → String → (User → User) → Db → Option MuxshedError × Db
write_user c id username change db =
    if any (λ u. string_eq u.username username && not (u.id == id)) db.users
    then (some (database c.conflict), db)
    else (none, record db { users = set_user id change db.users })

abbrev pub hashed_user :
    Crypto → ℕ → String → String → Db → String ⊎ String → Option MuxshedError × Db
hashed_user c id username role db (inl e) = (some (internal e), db)
hashed_user c id username role db (inr hash) =
    write_user c id username
      (λ u. record u { username = username; password_hash = hash; role = role }) db

-- With the name and the role that the user is to have.
abbrev pub store_user : Crypto → ℕ → String → String → Option String → Db → Option MuxshedError × Db
store_user c id username role none db =
    write_user c id username (λ u. record u { username = username; role = role }) db
store_user c id username role (some password) db =
    if ltb (len password) 6
    then (some (bad_request "password must be at least 6 characters"), db)
    else hashed_user c id username role db (c.hash_password password)

unfoldable pub update_user :
    Crypto → ℕ → Option String → Option String → Option String → Db → Option MuxshedError × Db
update_user c id username password role db = elim (find? (λ u. u.id == id) db.users) [
  | none ↦ (some (not_found (concat ("user " ∷ decimal id ∷ []))), db)
  | some existing ↦
      if is_role (unwrap_or role existing.role)
      then store_user c id (unwrap_or username existing.username) (unwrap_or role existing.role)
          password db
      else (some (bad_request "role must be admin, write, or read"), db)
]

abbrev pub is_admin : User → Bool
is_admin u = string_eq u.role "admin"

-- `SELECT COUNT(*)`.
abbrev pub count : (User → Bool) → List User → ℕ
count f [] = 0
count f (u ∷ users) = let rest = count f users in if f u then suc rest else rest

unfoldable pub remove_user : ℕ → Db → Db
remove_user id db = record db {
  sessions = keep_if (λ s. not (s.user_id == id)) db.sessions;
  users = keep_if (λ u. not (u.id == id)) db.users;
}

unfoldable pub delete_user : ℕ → Db → Option MuxshedError × Db
delete_user id db = elim (find? (λ u. u.id == id) db.users) [
  | none ↦ (some (not_found (concat ("user " ∷ decimal id ∷ []))), db)
  | some user ↦
      if is_admin user && leb (count is_admin db.users) 1
      then (some (bad_request "cannot delete the last admin user"), db)
      else (none, remove_user id db)
]

-- `create` and `delete` of routes/keys.rs; `key` is the new key.
unfoldable pub create_key : Crypto → ℕ → String → String → List String → Db → Db
create_key c id key name scopes db = record db {
  api_keys =
      record { id = id; name = name; key_hash = c.hash_key key; scopes = scopes } ∷ db.api_keys;
}

unfoldable pub delete_key : ℕ → Db → Option MuxshedError × Db
delete_key id db =
    if any (λ k. k.id == id) db.api_keys
    then (none, record db { api_keys = keep_if (λ k. not (k.id == id)) db.api_keys })
    else (some (not_found (concat ("api key " ∷ decimal id ∷ []))), db)

abbrev pub all_scopes : List String
all_scopes = "read" ∷ "control" ∷ "admin" ∷ []

-- `init` of routes/setup.rs, with the ids of the first user and of its key, and the key.
abbrev pub set_up :
    Crypto → ℕ → ℕ → String → Option String → Db → String ⊎ String → Option MuxshedError × Db
set_up c user_id key_id key instance_name db (inl e) =
    (some (internal (concat ("password hash failed: " ∷ e ∷ []))), db)
set_up c user_id key_id key instance_name db (inr hash) = (
  none,
  create_key c key_id key "admin" all_scopes (record db {
    users =
        record { id = user_id; username = "admin"; password_hash = hash; role = "admin" }
        ∷ db.users;
    instance_name = or_else instance_name db.instance_name;
  }),
)

unfoldable pub init : Crypto → ℕ → ℕ → String → Option String → Db → Option MuxshedError × Db
init c user_id key_id key instance_name db =
    if ltb 0 (count (λ u. true) db.users)
    then (some (bad_request "setup already completed"), db)
    else set_up c user_id key_id key instance_name db (c.hash_password "admin")
