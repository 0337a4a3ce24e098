-- ===== src/Auth/Sound/Users.antt =====
-- The handlers that change users keep the rows sound: crates/api/src/routes/auth.rs and setup.rs.
use shed.Prelude.{
  ltb, ◌==◌, if◌then◌else◌, Bool-cases, Option-cases, unwrap_or, any, find?, ℕ, suc, ◌≤◌, String,
  ◌≡◌, refl, sym, ap, ◌∙◌, ◌⊎◌, inl, inr, true, false, not, ◌&&◌, Option, none, some, List, [], ◌∷◌,
  arith, if_cases, Sum-cases, string_eq, trim,
}
use shed.Types.MuxshedError.{MuxshedError, bad_request, database}
use Prim.Native.String.{len}
use shed.Auth.Sound.{Sound}
use shed.Auth.{User, Db, Crypto, Request, extract_bearer_token}
use shed.Auth.Users.{
  rehashed, added, hashed_user, set_up, set_user, count, is_role, store_user, write_user,
  replace_password, change_password, session_user, create_user, create_key, init, update_user,
}
use mathlib.Core.Path.{subst}
use shed.Auth.Accounts.{All-map, has_id, IsSound, set_user-IsSound}

rehashed-Sound :
    (user : User) (db : Db) (r : String ⊎ String) → IsSound db → Sound (rehashed user db r)
rehashed-Sound user db (inl e) sound = sound
rehashed-Sound user db (inr hash) sound =
    set_user-IsSound user.id (λ u. record u { password_hash = hash }) db (λ u. refl) sound

replace_password-Sound :
    (c : Crypto) (user : User) (current new : String) (db : Db)
    → IsSound db
    → Sound (replace_password c user current new db)
replace_password-Sound c user current new db sound =
    if_cases Sound (ltb (len new) 6)
      (some (bad_request "password must be at least 6 characters"), db)
      (if not (c.verify_password current user.password_hash)
        then (some (bad_request "current password is incorrect"), db)
        else rehashed user db (c.hash_password new))
      (λ e. sound)
      (λ e.
        if_cases Sound (not (c.verify_password current user.password_hash))
          (some (bad_request "current password is incorrect"), db)
          (rehashed user db (c.hash_password new)) (λ q. sound)
          (λ q. rehashed-Sound user db (c.hash_password new) sound))

pub change_password-Sound :
    (c : Crypto) (now : ℕ) (r : Request) (body : String ⊎ (String × String)) (db : Db)
    → IsSound db
    → Sound (change_password c now r body db)
unfolding change_password
change_password-Sound c now r body db sound = elim (Option-cases (extract_bearer_token r)) [
  | inl e ↦ rw (change_password, e) sound
  | inr (token, e) ↦ elim (Option-cases (session_user now token db)) [
    | inl q ↦ rw (change_password, e, q) sound
    | inr (user, q) ↦ elim (Sum-cases body) [
      | inl (b, h) ↦ rw (change_password, e, q, h) sound
      | inr ((current, new), h) ↦
          rw (change_password, e, q, h) (replace_password-Sound c user current new db sound)
    ]
  ]
]

write_user-Sound :
    (c : Crypto) (id : ℕ) (username : String) (change : User → User) (db : Db)
    → ((u : User) → (change u).id ≡ u.id)
    → IsSound db
    → Sound (write_user c id username change db)
write_user-Sound c id username change db same sound =
    if_cases Sound (any (λ u. string_eq u.username username && not (u.id == id)) db.users)
      (some (database c.conflict), db) (none, record db { users = set_user id change db.users })
      (λ e. sound) (λ e. set_user-IsSound id change db same sound)

hashed_user-Sound :
    (c : Crypto) (id : ℕ) (username role : String) (db : Db) (r : String ⊎ String)
    → IsSound db
    → Sound (hashed_user c id username role db r)
hashed_user-Sound c id username role db (inl e) sound = sound
hashed_user-Sound c id username role db (inr hash) sound =
    write_user-Sound c id username
      (λ u. record u { username = username; password_hash = hash; role = role }) db (λ u. refl)
      sound

store_user-Sound :
    (c : Crypto) (id : ℕ) (username role : String) (password : Option String) (db : Db)
    → IsSound db
    → Sound (store_user c id username role password db)
store_user-Sound c id username role none db sound =
    write_user-Sound c id username (λ u. record u { username = username; role = role }) db
      (λ u. refl) sound
store_user-Sound c id username role (some password) db sound =
    if_cases Sound (ltb (len password) 6)
      (some (bad_request "password must be at least 6 characters"), db)
      (hashed_user c id username role db (c.hash_password password)) (λ e. sound)
      (λ e. hashed_user-Sound c id username role db (c.hash_password password) sound)

pub update_user-Sound :
    (c : Crypto) (id : ℕ) (username password role : Option String) (db : Db)
    → IsSound db
    → Sound (update_user c id username password role db)
unfolding update_user
update_user-Sound c id username password role db sound =
    elim (Option-cases (find? (λ u. u.id == id) db.users)) [
      | inl e ↦ rw (update_user, e) sound
      | inr (user, e) ↦
          rw (update_user, e)
            (if_cases Sound (is_role (unwrap_or role user.role))
              (store_user c id (unwrap_or username user.username) (unwrap_or role user.role)
                password db)
              (some (bad_request "role must be admin, write, or read"), db)
              (λ q.
                store_user-Sound c id (unwrap_or username user.username) (unwrap_or role user.role)
                  password db sound)
              (λ q. sound))
    ]

-- No user has the id.
abbrev pub IsNew : ℕ → Db → Type 0
IsNew id db = any (has_id id) db.users ≡ false

any_none :
    (id : ℕ) (users : List User) → any (has_id id) users ≡ false → count (has_id id) users ≡ 0
any_none id [] h = refl
any_none id (u ∷ users) h = let ih = any_none id users in ground (arith, h, ih)

add_user-IsSound :
    (user : User) (db : Db)
    → IsNew user.id db
    → IsSound db
    → IsSound (record db { users = user ∷ db.users })
add_user-IsSound user db fresh (unique, owned) = (
  λ j.
      let one = unique j in
      let zero = any_none user.id db.users fresh in
      if_cases (λ n. n ≤ 1) (user.id == j) (suc (count (has_id j) db.users))
        (count (has_id j) db.users)
        (λ e.
          let same : user.id ≡ j = ground (arith, e) in
          let none_j : count (has_id j) db.users ≡ 0 =
            ap (λ k. count (has_id k) db.users) (sym same) ∙ zero in
          omega (arith, none_j))
        (λ e. one),
  All-map (λ s. any (has_id s.user_id) db.users ≡ true)
      (λ s. any (has_id s.user_id) (user ∷ db.users) ≡ true) db.sessions (λ s h. ground (arith, h))
      owned,
)

added-Sound :
    (id : ℕ) (username role : String) (db : Db) (r : String ⊎ String)
    → IsNew id db
    → IsSound db
    → Sound (added id username role db r)
added-Sound id username role db (inl e) fresh sound = sound
added-Sound id username role db (inr hash) fresh sound =
    add_user-IsSound (record { id = id; username = username; password_hash = hash; role = role }) db
      fresh sound

-- A creation is refused, or adds the user.
create_user_cases :
    (c : Crypto) (id : ℕ) (username password role : String) (db : Db)
    → ((e : MuxshedError) × (create_user c id username password role db ≡ (some e, db)))
      ⊎ (create_user c id username password role db
          ≡ added id username role db (c.hash_password password))
unfolding create_user
create_user_cases c id username password role db =
    let e1 = string_eq (trim username) "" in
    let e2 = ltb (len password) 6 in
    let e3 = not (is_role role) in
    let e4 = any (λ u. string_eq u.username username) db.users in
    elim (Bool-cases e1) [
      | inl h ↦ inl (bad_request "username required", rw (create_user, h) refl)
      | inr h ↦ elim (Bool-cases e2) [
        | inl h2 ↦
            inl (bad_request "password must be at least 6 characters", rw (create_user, h, h2) refl)
        | inr h2 ↦ elim (Bool-cases e3) [
          | inl h3 ↦
              inl
                (bad_request "role must be admin, write, or read", rw (create_user, h, h2, h3) refl)
          | inr h3 ↦ elim (Bool-cases e4) [
            | inl h4 ↦
                inl (bad_request "username already exists", rw (create_user, h, h2, h3, h4) refl)
            | inr h4 ↦ inr (rw (create_user, h, h2, h3, h4) refl)
          ]
        ]
      ]
    ]

pub create_user-Sound :
    (c : Crypto) (id : ℕ) (username password role : String) (db : Db)
    → IsNew id db
    → IsSound db
    → Sound (create_user c id username password role db)
unfolding create_user
create_user-Sound c id username password role db fresh sound =
    elim (create_user_cases c id username password role db) [
      | inl (e, h) ↦ subst Sound (sym h) sound
      | inr h ↦
          subst Sound (sym h)
            (added-Sound id username role db (c.hash_password password) fresh sound)
    ]

set_up-Sound :
    (c : Crypto) (user_id key_id : ℕ) (key : String) (instance_name : Option String) (db : Db)
    (r : String ⊎ String)
    → IsNew user_id db
    → IsSound db
    → Sound (set_up c user_id key_id key instance_name db r)
unfolding create_key
set_up-Sound c user_id key_id key instance_name db (inl e) fresh sound = sound
set_up-Sound c user_id key_id key instance_name db (inr hash) fresh sound =
    add_user-IsSound
      (record { id = user_id; username = "admin"; password_hash = hash; role = "admin" }) db fresh
      sound

pub init-Sound :
    (c : Crypto) (user_id key_id : ℕ) (key : String) (instance_name : Option String) (db : Db)
    → IsNew user_id db
    → IsSound db
    → Sound (init c user_id key_id key instance_name db)
unfolding init
init-Sound c user_id key_id key instance_name db fresh sound =
    if_cases Sound (ltb 0 (count (λ u. true) db.users))
      (some (bad_request "setup already completed"), db)
      (set_up c user_id key_id key instance_name db (c.hash_password "admin")) (λ e. sound)
      (λ e.
        set_up-Sound c user_id key_id key instance_name db (c.hash_password "admin") fresh sound)
