-- ===== src/Auth/Sound.antt =====
-- The rows of the accounts stay sound through every handler: crates/api/src/routes/auth.rs, setup.rs and
-- keys.rs.
pub mod Users
use shed.Prelude.{
  leb, ◌==◌, ==_refl, Bool-cases, Option-cases, any, find?, ℕ, zero, ◌≤◌, String, ◌≡◌, inl, inr,
  true, false, not, ◌&&◌, Option, none, some, arith, if_cases, string_eq,
}
use shed.Types.MuxshedError.{MuxshedError, bad_request}
use shed.Auth.{Db, Crypto, login, logout}
use shed.Auth.Users.{is_admin, count, remove_user, delete_user}
use shed.Auth.Accounts.{
  has_id, IsSound, remove_user-IsSound, keep_if-All, any_of_find, count-keep_if, count_and_zero,
  count_and_le,
}

-- A handler's result.
abbrev pub Sound : Option MuxshedError × Db → Type 0
Sound r = IsSound r.1

more_than_one : (n : ℕ) → leb n 1 ≡ false → 2 ≤ n
more_than_one n h = ground arith

-- A user can be deleted so that an administrator stays: the last one is refused, and another user's
-- deletion leaves the administrators.
pub delete_user-keeps_admin :
    (id : ℕ) (db : Db)
    → IsSound db
    → 1 ≤ count is_admin db.users
    → 1 ≤ count is_admin (delete_user id db).1.users
unfolding delete_user remove_user
delete_user-keeps_admin id db (unique, owned) some_admin =
    let kept = count-keep_if is_admin id db.users in
    let le = count_and_le is_admin id db.users in
    elim (Option-cases (find? (λ u. u.id == id) db.users)) [
      | inl e ↦ rw (delete_user, e) some_admin
      | inr (user, e) ↦ elim (Bool-cases (is_admin user)) [
        | inl a ↦ elim (Bool-cases (leb (count is_admin db.users) 1)) [
          | inl last ↦ rw (delete_user, e, a, last) some_admin
          | inr more ↦
              rw (delete_user, e, a, more)
                (let one = unique id in
                  let two = more_than_one (count is_admin db.users) more in
                  omega (arith, kept, le, one, two))
        ]
        | inr a ↦
            rw (delete_user, e, a)
              (let zero = count_and_zero is_admin id db.users user (unique id) e a in
                omega (arith, kept, zero, some_admin))
      ]
    ]

pub delete_user-IsSound : (id : ℕ) (db : Db) → IsSound db → IsSound (delete_user id db).1
unfolding delete_user
delete_user-IsSound id db sound = elim (Option-cases (find? (λ u. u.id == id) db.users)) [
  | inl e ↦ rw (delete_user, e) sound
  | inr (user, e) ↦
      rw (delete_user, e)
        (if_cases Sound (is_admin user && leb (count is_admin db.users) 1)
          (some (bad_request "cannot delete the last admin user"), db) (none, remove_user id db)
          (λ q. sound) (λ q. remove_user-IsSound id db sound))
]

pub logout-IsSound : (token : String) (db : Db) → IsSound db → IsSound (logout token db)
unfolding logout
logout-IsSound token db (unique, owned) = (
  unique,
  keep_if-All (λ s. any (has_id s.user_id) db.users ≡ true) (λ s. not (string_eq s.token token))
      db.sessions owned,
)

pub login-IsSound :
    (c : Crypto) (now : ℕ) (token username password : String) (db : Db)
    → IsSound db
    → IsSound (login c now token username password db).1
unfolding login
login-IsSound c now token username password db (unique, owned) =
    elim (Option-cases (find? (λ u. string_eq u.username username) db.users)) [
      | inl e ↦ rw (login, e) (unique, owned)
      | inr (user, e) ↦ elim (Bool-cases (c.verify_password password user.password_hash)) [
        | inl q ↦
            rw (login, e, q)
              (
                unique,
                (
                  any_of_find (λ u. string_eq u.username username) (has_id user.id) db.users user e
                      (==_refl user.id),
                  owned,
                ),
              )
        | inr q ↦ rw (login, e, q) (unique, owned)
      ]
    ]
