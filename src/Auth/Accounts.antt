-- ===== src/Auth/Accounts.antt =====
-- The rows of the accounts stay sound: crates/api/src/routes/auth.rs, setup.rs and keys.rs.
use shed.Prelude.{
  ◌==◌, Bool-cases, is_some, unwrap_or, All, keep_if, any, find?, ℕ, ◌+◌, ◌≤◌, ◌≡◌, refl, sym, ap,
  ◌∙◌, inl, inr, Bool, true, false, not, ◌&&◌, some, List, [], ◌∷◌, arith, if_cases,
}
use mathlib.Core.Path.{subst}
use shed.Auth.{Session, User, User, Db}
use shed.Auth.Users.{set_user, count, remove_user}

abbrev pub has_id : ℕ → User → Bool
has_id id u = u.id == id

-- The users that are left, and those that go, are all of them.
pub count-keep_if :
    (f : User → Bool) (id : ℕ) (users : List User)
    → count f (keep_if (λ u. not (u.id == id)) users) + count (λ u. f u && has_id id u) users
      ≡ count f users
count-keep_if f id [] = refl
count-keep_if f id (u ∷ users) = ground (arith, count-keep_if f id users)

pub count_and_le :
    (f : User → Bool) (id : ℕ) (users : List User)
    → count (λ u. f u && has_id id u) users ≤ count (has_id id) users
count_and_le f id [] = omega arith
count_and_le f id (u ∷ users) = ground (arith, count_and_le f id users)

-- Where an id is unique, its user decides what is counted under it.
pub count_and_zero :
    (f : User → Bool) (id : ℕ) (users : List User) (user : User)
    → count (has_id id) users ≤ 1
    → find? (λ u. u.id == id) users ≡ some user
    → f user ≡ false
    → count (λ u. f u && has_id id u) users ≡ 0
count_and_zero f id [] user h found none_f = refl
count_and_zero f id (u ∷ users) user h found none_f = elim (Bool-cases (u.id == id)) [
  | inl e ↦
      let first : some u ≡ some user = ground (arith, found, e) in
      let same : u ≡ user = ap (λ o. unwrap_or o u) first in
      let no_u : f u ≡ false = ap f same ∙ none_f in
      let le = count_and_le f id users in ground (arith, e, h, no_u, le)
  | inr e ↦
      let ih =
        count_and_zero f id users user (ground (arith, e, h)) (ground (arith, e, found)) none_f in
      ground (arith, e, ih)
]

-- Ids are unique, and a session belongs to a user.
abbrev pub IsSound : Db → Type 0
IsSound db =
    ((id : ℕ) → count (has_id id) db.users ≤ 1)
    × All (λ s. any (has_id s.user_id) db.users ≡ true) db.sessions

pub All-map :
    (P Q : Session → Type 0) (sessions : List Session)
    → ((s : Session) → P s → Q s)
    → All P sessions
    → All Q sessions
All-map P Q [] f h = tt
All-map P Q (s ∷ sessions) f h = (f s h.0, All-map P Q sessions f h.1)

-- A change of a user that keeps the ids keeps who is there.
any-set_user :
    (id j : ℕ) (change : User → User) (users : List User)
    → ((u : User) → (change u).id ≡ u.id)
    → any (has_id j) (set_user id change users) ≡ any (has_id j) users
any-set_user id j change [] same = refl
any-set_user id j change (u ∷ users) same =
    let ih = any-set_user id j change users same in ground (arith, ih, same u)

pub count-set_user :
    (id j : ℕ) (change : User → User) (users : List User)
    → ((u : User) → (change u).id ≡ u.id)
    → count (has_id j) (set_user id change users) ≡ count (has_id j) users
count-set_user id j change [] same = refl
count-set_user id j change (u ∷ users) same =
    let ih = count-set_user id j change users same in ground (arith, ih, same u)

pub set_user-IsSound :
    (id : ℕ) (change : User → User) (db : Db)
    → ((u : User) → (change u).id ≡ u.id)
    → IsSound db
    → IsSound (record db { users = set_user id change db.users })
set_user-IsSound id change db same (unique, owned) = (
  λ j. subst (λ n. n ≤ 1) (sym (count-set_user id j change db.users same)) (unique j),
  All-map (λ s. any (has_id s.user_id) db.users ≡ true)
      (λ s. any (has_id s.user_id) (set_user id change db.users) ≡ true) db.sessions
      (λ s h. any-set_user id s.user_id change db.users same ∙ h) owned,
)

pub any_of_find :
    (f g : User → Bool) (users : List User) (user : User)
    → find? f users ≡ some user
    → g user ≡ true
    → any g users ≡ true
any_of_find f g [] user h k = absurd (ground (arith, ap is_some h))
any_of_find f g (u ∷ users) user h k = elim (Bool-cases (f u)) [
  | inl e ↦
      let first : some u ≡ some user = ground (arith, h, e) in
      let same : u ≡ user = ap (λ o. unwrap_or o u) first in
      let there : g u ≡ true = ap g same ∙ k in ground (arith, there)
  | inr e ↦ let ih = any_of_find f g users user (ground (arith, h, e)) k in ground (arith, ih)
]

pub keep_if-All :
    (P : Session → Type 0) (f : Session → Bool) (sessions : List Session)
    → All P sessions
    → All P (keep_if f sessions)
keep_if-All P f [] h = tt
keep_if-All P f (s ∷ sessions) h =
    if_cases (All P) (f s) (s ∷ keep_if f sessions) (keep_if f sessions)
      (λ e. (h.0, keep_if-All P f sessions h.1)) (λ e. keep_if-All P f sessions h.1)

any-keep_if :
    (id j : ℕ) (users : List User)
    → (j == id) ≡ false
    → any (has_id j) (keep_if (λ u. not (u.id == id)) users) ≡ any (has_id j) users
any-keep_if id j [] h = refl
any-keep_if id j (u ∷ users) h = let ih = any-keep_if id j users h in ground (arith, ih, h)

kept_owned :
    (id : ℕ) (users : List User) (sessions : List Session)
    → All (λ s. any (has_id s.user_id) users ≡ true) sessions
    → All
        (λ s. any (has_id s.user_id) (keep_if (λ u. not (u.id == id)) users) ≡ true)
        (keep_if (λ s. not (s.user_id == id)) sessions)
kept_owned id users [] h = tt
kept_owned id users (s ∷ sessions) h =
    let kept = keep_if (λ r. not (r.user_id == id)) sessions in
    if_cases (All (λ r. any (has_id r.user_id) (keep_if (λ u. not (u.id == id)) users) ≡ true))
      (not (s.user_id == id)) (s ∷ kept) kept
      (λ e. (
        any-keep_if id s.user_id users (ground (arith, e)) ∙ h.0,
        kept_owned id users sessions h.1,
      ))
      (λ e. kept_owned id users sessions h.1)

pub remove_user-IsSound : (id : ℕ) (db : Db) → IsSound db → IsSound (remove_user id db)
unfolding remove_user
remove_user-IsSound id db (unique, owned) = (
  λ j.
      let kept = count-keep_if (has_id j) id db.users in
      let one = unique j in omega (arith, kept, one),
  kept_owned id db.users db.sessions owned,
)
