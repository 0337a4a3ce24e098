-- ===== src/Auth/Examples.antt =====
-- Tests and instances for the accounts.
use shed.Prelude.{
  is_some, ℕ, ◌≡◌, refl, inr, true, false, none, some, List, [], ◌∷◌, arith, concat, string_eq,
  strip_prefix,
}
use shed.Auth.{
  User, Db, Crypto, Request, auth_middleware, management_auth, login, logout, extract_bearer_token,
  validate_session, validate_api_key,
}
use shed.Auth.Users.{is_admin, count, delete_user, update_user, init}
use shed.Auth.Access.{with_token, login-lets_in}
use shed.Auth.Accounts.{IsSound}
use shed.Auth.Histories.{Op, op_login, op_create_user, op_delete_user, run, run-IsSound}
use shed.Auth.Demotion.{demotion_leaves_no_admin}

-- A hash is the text itself, with a mark before it.
abbrev crypto : Crypto
crypto = record {
  hash_key = λ key. concat ("#" ∷ key ∷ []);
  hash_password = λ password. inr (concat ("$" ∷ password ∷ []));
  verify_password = λ password hash. string_eq (concat ("$" ∷ password ∷ [])) hash;
  conflict = "UNIQUE constraint failed: users.username";
}

abbrev admin_user : User
admin_user = record { id = 1; username = "admin"; password_hash = "$secret"; role = "admin" }

abbrev db : Db
db = record {
  users = admin_user ∷ [];
  sessions = record { user_id = 1; token = "old"; expires_at = 50 } ∷ [];
  api_keys = [];
  instance_name = none;
  system_token = some "#portal";
}

abbrev no_credentials : Request
no_credentials = record {
  api_key_header = none;
  authorization = none;
  management_token = none;
  token_param = none;
  key_param = none;
}

-- Which requests are let in at time 49.
requests_let_in :
    (auth_middleware crypto 49 db (record no_credentials { authorization = some "Bearer old" })
      ≡ true)
    × (auth_middleware crypto 50 db (record no_credentials { authorization = some "Bearer old" })
        ≡ false)
    × (auth_middleware crypto 49 db (record no_credentials { authorization = some "Basic old" })
        ≡ false)
    × (auth_middleware crypto 49 db (record no_credentials { api_key_header = some "portal" })
        ≡ true)
    × (auth_middleware crypto 49 db (record no_credentials { key_param = some "portal" }) ≡ false)
    × (management_auth crypto db (record no_credentials { api_key_header = some "portal" }) ≡ false)
    × (management_auth crypto db (record no_credentials { management_token = some "portal" })
        ≡ true)
unfolding auth_middleware extract_bearer_token validate_session validate_api_key strip_prefix
    management_auth
requests_let_in = (refl, refl, refl, refl, refl, refl, refl)

login-lets_in_example :
    let db' = (login crypto 7 "new" "admin" "secret" db).1 in
    (auth_middleware crypto 2592006 db' (with_token "new") ≡ true)
    × (auth_middleware crypto 2592006 (logout "new" db') (with_token "new") ≡ false)
unfolding login
login-lets_in_example =
    login-lets_in crypto 7 "new" "admin" "secret" db
      (record { user_id = 1; token = "new"; expires_at = 2592007 }) 2592006 refl refl

db-IsSound : IsSound db
db-IsSound = (λ id. ground arith, (refl, tt))

abbrev history : List (ℕ × Op)
history =
    (1, op_create_user 2 "operator" "123456" "write")
    ∷ (2, op_login "b" "operator" "123456")
    ∷ (3, op_delete_user 2)
    ∷ (4, op_delete_user 1)
    ∷ []

run-IsSound_example : IsSound (run crypto history db)
run-IsSound_example = run-IsSound crypto history db (refl, (tt, (tt, (tt, tt)))) db-IsSound

demotion_leaves_no_admin_example :
    let (refused, db') = update_user crypto 1 none none (some "read") db in
    (is_some (delete_user 1 db).0 ≡ true)
    × (refused ≡ none)
    × (count is_admin db'.users ≡ 0)
    × (is_some (init crypto 8 9 "k" none db').0 ≡ true)
demotion_leaves_no_admin_example =
    demotion_leaves_no_admin crypto 1 8 9 "k" admin_user db refl refl refl refl
