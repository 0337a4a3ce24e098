-- ===== src/Auth/Demotion.antt =====
-- The last administrator: crates/api/src/routes/auth.rs, `update_user` and `delete_user`.
use shed.Prelude.{
  ltb, ◌==◌, Bool-cases, is_some, unwrap_or, any, find?, ℕ, ◌+◌, ◌≤◌, String, ◌≡◌, refl, ap, ◌∙◌,
  inl, inr, Bool, true, false, not, ◌&&◌, none, some, List, [], ◌∷◌, arith, string_eq,
}
use shed.Auth.{User, Db, Crypto}
use shed.Auth.Users.{is_admin, is_role, count, set_user, update_user, delete_user, init}
use shed.Auth.Accounts.{has_id}

-- The administrators after a change of one user to something else, and before.
count-demote :
    (id : ℕ) (change : User → User) (users : List User)
    → ((u : User) → is_admin (change u) ≡ false)
    → count is_admin (set_user id change users) + count (λ u. is_admin u && has_id id u) users
      ≡ count is_admin users
count-demote id change [] h = refl
count-demote id change (u ∷ users) h =
    let ih = count-demote id change users h in ground (arith, ih, h u)

found_counts :
    (f : User → Bool) (id : ℕ) (users : List User) (user : User)
    → find? (λ u. u.id == id) users ≡ some user
    → f user ≡ true
    → 1 ≤ count (λ u. f u && has_id id u) users
found_counts f id [] user h k = absurd (ground (arith, ap is_some h))
found_counts f id (u ∷ users) user h k = elim (Bool-cases (u.id == id)) [
  | inl e ↦
      let first : some u ≡ some user = ground (arith, h, e) in
      let same : u ≡ user = ap (λ o. unwrap_or o u) first in
      let there : f u ≡ true = ap f same ∙ k in ground (arith, there, e)
  | inr e ↦ let ih = found_counts f id users user (ground (arith, h, e)) k in ground (arith, ih, e)
]

set_user-nonempty :
    (id : ℕ) (change : User → User) (users : List User) (user : User)
    → find? (λ u. u.id == id) users ≡ some user
    → ltb 0 (count (λ u. true) (set_user id change users)) ≡ true
set_user-nonempty id change [] user h = absurd (ground (arith, ap is_some h))
set_user-nonempty id change (u ∷ users) user h = ground arith

-- The only administrator, whose deletion is refused, can be given another role, and then there is
-- none: the change succeeds, and the setup, which would make one, is refused.
pub demotion_leaves_no_admin :
    (c : Crypto) (id user_id key_id : ℕ) (key : String) (user : User) (db : Db)
    → find? (λ u. u.id == id) db.users ≡ some user
    → is_admin user ≡ true
    → count is_admin db.users ≡ 1
    → any (λ u. string_eq u.username user.username && not (u.id == id)) db.users ≡ false
    → let (refused, db') = update_user c id none none (some "read") db in
      (is_some (delete_user id db).0 ≡ true)
      × (refused ≡ none)
      × (count is_admin db'.users ≡ 0)
      × (is_some (init c user_id key_id key none db').0 ≡ true)
unfolding update_user delete_user init is_role
demotion_leaves_no_admin c id user_id key_id key user db found admin one unique =
    let demoted : User → User = λ u. record u { username = user.username; role = "read" } in
    let kept = count-demote id demoted db.users (λ u. refl) in
    let some_one = found_counts is_admin id db.users user found admin in
    let updated : update_user c id none none (some "read") db
        ≡ (none, record db { users = set_user id demoted db.users }) =
      rw (update_user, found, unique) refl in
    (
      rw (delete_user, found, admin, one) refl,
      ap (λ r. r.0) updated,
      ap (λ r. count is_admin r.1.users) updated ∙ omega (arith, kept, some_one, one),
      ap (λ r. is_some (init c user_id key_id key none r.1).0) updated
          ∙ (rw (init, set_user-nonempty id demoted db.users user found) refl),
    )
