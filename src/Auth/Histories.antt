-- ===== src/Auth/Histories.antt =====
-- Histories of requests to the accounts: crates/api/src/routes/auth.rs, setup.rs and keys.rs.
use shed.Prelude.{◌==◌, Bool-cases, any, ℕ, String, ◌⊎◌, inl, inr, Option, List, [], ◌∷◌}
use shed.Auth.{Db, Crypto, Request, login, logout}
use shed.Auth.Users.{
  change_password, create_user, update_user, delete_user, create_key, delete_key, init,
}
use shed.Auth.Accounts.{IsSound}
use shed.Auth.Sound.{login-IsSound, logout-IsSound, delete_user-IsSound}
use shed.Auth.Sound.Users.{
  IsNew, create_user-Sound, update_user-Sound, change_password-Sound, init-Sound,
}

-- A request, with the ids, tokens and keys that are made for it.
pub data Op : Type 0 where
  op_login : (token username password : String) → Op
  op_logout : (token : String) → Op
  op_change_password : Request → String ⊎ (String × String) → Op
  op_create_user : (id : ℕ) → (username password role : String) → Op
  op_update_user : (id : ℕ) → (username password role : Option String) → Op
  op_delete_user op_delete_key : (id : ℕ) → Op
  op_create_key : (id : ℕ) → (key name : String) → List String → Op
  op_init : (user_id key_id : ℕ) → (key : String) → Option String → Op

unfoldable pub step : Crypto → ℕ → Op → Db → Db
step c now (op_login token username password) db = (login c now token username password db).1
step c now (op_logout token) db = logout token db
step c now (op_change_password r body) db = (change_password c now r body db).1
step c now (op_create_user id username password role) db =
    (create_user c id username password role db).1
step c now (op_update_user id username password role) db =
    (update_user c id username password role db).1
step c now (op_delete_user id) db = (delete_user id db).1
step c now (op_delete_key id) db = (delete_key id db).1
step c now (op_create_key id key name scopes) db = create_key c id key name scopes db
step c now (op_init user_id key_id key instance_name) db =
    (init c user_id key_id key instance_name db).1

unfoldable pub run : Crypto → List (ℕ × Op) → Db → Db
run c [] db = db
run c ((now, op) ∷ history) db = run c history (step c now op db)

-- The id of a new user is new.
abbrev pub Allowed : Op → Db → Type 0
Allowed (op_create_user id username password role) db = IsNew id db
Allowed (op_init user_id key_id key instance_name) db = IsNew user_id db
Allowed _ db = Unit

abbrev pub AllAllowed : Crypto → List (ℕ × Op) → Db → Type 0
AllAllowed c [] db = Unit
AllAllowed c ((now, op) ∷ history) db = Allowed op db × AllAllowed c history (step c now op db)

delete_key-IsSound : (id : ℕ) (db : Db) → IsSound db → IsSound (delete_key id db).1
unfolding delete_key
delete_key-IsSound id db sound = elim (Bool-cases (any (λ k. k.id == id) db.api_keys)) [
  | inl e ↦ rw (delete_key, e) sound
  | inr e ↦ rw (delete_key, e) sound
]

step-IsSound :
    (c : Crypto) (now : ℕ) (op : Op) (db : Db)
    → Allowed op db
    → IsSound db
    → IsSound (step c now op db)
unfolding step create_key
step-IsSound c now (op_login token username password) db h sound =
    login-IsSound c now token username password db sound
step-IsSound c now (op_logout token) db h sound = logout-IsSound token db sound
step-IsSound c now (op_change_password r body) db h sound =
    change_password-Sound c now r body db sound
step-IsSound c now (op_create_user id username password role) db h sound =
    create_user-Sound c id username password role db h sound
step-IsSound c now (op_update_user id username password role) db h sound =
    update_user-Sound c id username password role db sound
step-IsSound c now (op_delete_user id) db h sound = delete_user-IsSound id db sound
step-IsSound c now (op_delete_key id) db h sound = delete_key-IsSound id db sound
step-IsSound c now (op_create_key id key name scopes) db h sound = sound
step-IsSound c now (op_init user_id key_id key instance_name) db h sound =
    init-Sound c user_id key_id key instance_name db h sound

-- After any history of requests no two users have one id, and every session belongs to a user, so
-- that a deleted user's sessions are gone. The ids of new users are new.
pub run-IsSound :
    (c : Crypto) (history : List (ℕ × Op)) (db : Db)
    → AllAllowed c history db
    → IsSound db
    → IsSound (run c history db)
unfolding run
run-IsSound c [] db h sound = sound
run-IsSound c ((now, op) ∷ history) db (h, rest) sound =
    run-IsSound c history (step c now op db) rest (step-IsSound c now op db h sound)
