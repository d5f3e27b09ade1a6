-- ===== src/Accounts/Users/Fresh.antt =====
-- The first token of a user whom the LDAP login creates: what it says and what the row says.
use nexspence_demo.Accounts.Libraries.{LdapUser, LdapConfig, generate_token, UserService}
use nexspence_demo.Accounts.Directory.{
  new_ldap_user, login_bound, enter, issue, enter_new, reloaded, login_ldap, sync_ldap_roles,
}
use nexspence_demo.Accounts.Rows.{
  ok, write_login, err, email_taken, Result, insert_user, write_users, replace_user_roles,
  update_last_login, update_rows, Database, create_user,
}
use nexspence_demo.Prelude.{
  Bool, Bool-cases, List, Option, Option-cases, Text, [], any_of, arith, eq_text, false, inl, inr,
  none, refl, some, subst, sym, ℕ, ◌||◌, ◌∙◌, ◌∷◌, ◌≡◌,
}
use nexspence_demo.Domain.{User, active}

-- The first row is the user's, with the given cutoff.
unfoldable pub StartsWith : Text → ℕ → List User → Type 0
StartsWith id now [] = ⊥
StartsWith id now (r ∷ rows) = (r.id ≡ id) × (r.tokens_valid_after ≡ now)

-- A new user is in the first row, if there is one.
Created : Text → ℕ → Database × Result User → Type 0
Created id now (db, err e) = Unit
Created id now (db, ok u) = StartsWith id now db.users × (u.id ≡ id)

-- After a login: the row, and the token that was signed.
unfoldable pub IsIssued : UserService → Text → ℕ → ℕ → Database × Result (Text × User) → Type 0
IsIssued s id now signed (db, err e) = Unit
IsIssued s id now signed (db, ok r) =
    StartsWith id now db.users
    × (r.1.id ≡ id)
    × (generate_token s r.1.id r.1.username r.1.roles signed ≡ some r.0)

stored :
    (db : Database) (u : User) (id : Text) (now : ℕ)
    → db.fails insert_user ≡ false
    → (any_of (λ (v : User). eq_text v.username u.username) db.users
        || email_taken db u.username u.email)
      ≡ false
    → create_user db u id now ≡ (
      record db {
        users =
            record u { id = id; roles = []; last_login = none; tokens_valid_after = now }
            ∷ db.users;
      },
      ok (record u { id = id }),
    )
unfolding create_user
stored db u id now f g = rw (f, g, create_user) refl

create_user-Created :
    (db : Database) (u : User) (id : Text) (now : ℕ) → Created id now (create_user db u id now)
unfolding create_user Created StartsWith
create_user-Created db u id now = elim (Bool-cases (db.fails insert_user)) [
  | inl t ↦ rw (t, Created) tt
  | inr f ↦
      elim (Bool-cases (
        any_of (λ (v : User). eq_text v.username u.username) db.users
        || email_taken db u.username u.email)) [
          | inl t ↦ rw (f, t, Created) tt
          | inr g ↦ subst (Created id now) (sym (stored db u id now f g)) ((refl, refl), refl)
        ]
]

update_rows-StartsWith :
    (id : Text) (now : ℕ) (p : User → Bool) (o : Option ℕ) (users : List User)
    → StartsWith id now users
    → StartsWith id now (update_rows p (λ u. record u { last_login = o }) users)
unfolding update_rows StartsWith
update_rows-StartsWith id now p o [] h = h
update_rows-StartsWith id now p o (r ∷ rows) h = elim (Bool-cases (p r)) [
  | inl t ↦ rw t h
  | inr f ↦ rw f h
]

update_last_login-StartsWith :
    (db : Database) (username id : Text) (now t : ℕ)
    → StartsWith id now db.users
    → StartsWith id now (update_last_login db username t).0.users
unfolding update_last_login write_users
update_last_login-StartsWith db username id now t h = elim (Bool-cases (db.fails write_login)) [
  | inl e ↦ rw e h
  | inr e ↦
      rw e (update_rows-StartsWith id now (λ u. eq_text u.username username) (some t) db.users h)
]

sync_ldap_roles-users :
    (s : UserService) (cfg : LdapConfig) (db : Database) (id : Text) (groups : List Text)
    → (sync_ldap_roles s cfg db id groups).0.users ≡ db.users
unfolding sync_ldap_roles replace_user_roles
sync_ldap_roles-users s cfg db id groups = ground arith

reloaded-id : (db : Database) (u : User) → (reloaded db u).id ≡ u.id
unfolding reloaded
reloaded-id db u = ground arith

issued :
    (s : UserService) (db : Database) (username : Text) (u : User) (now signed : ℕ) (t : Text)
    → generate_token s u.id u.username u.roles signed ≡ some t
    → issue s db username u now signed ≡ ((update_last_login db username now).0, ok (t, u))
unfolding issue
issued s db username u now signed t g = rw (g, issue) refl

issue-IsIssued :
    (s : UserService) (db : Database) (username id : Text) (u : User) (now signed : ℕ)
    → StartsWith id now db.users
    → u.id ≡ id
    → IsIssued s id now signed (issue s db username u now signed)
unfolding issue IsIssued
issue-IsIssued s db username id u now signed h e =
    elim (Option-cases (generate_token s u.id u.username u.roles signed)) [
      | inl n ↦ rw (n, IsIssued) tt
      | inr (t, g) ↦
          subst (IsIssued s id now signed) (sym (issued s db username u now signed t g))
            (update_last_login-StartsWith db username id now now h, e, g)
    ]

enter-IsIssued :
    (s : UserService) (cfg : LdapConfig) (db : Database) (username id : Text) (lu : LdapUser)
    (u : User) (now signed : ℕ)
    → StartsWith id now db.users
    → u.id ≡ id
    → IsIssued s id now signed (enter s cfg db username lu u now signed)
unfolding enter IsIssued
enter-IsIssued s cfg db username id lu u now signed h e =
    let synced = (sync_ldap_roles s cfg db u.id lu.groups).0 in
    elim (Bool-cases (eq_text u.status active)) [
      | inr f ↦ rw (f, IsIssued) tt
      | inl t ↦ rw t (
          issue-IsIssued s synced username id (reloaded synced u) now signed
            (subst (StartsWith id now) (sym (sync_ldap_roles-users s cfg db u.id lu.groups)) h)
            (reloaded-id synced u ∙ e))
    ]

enter_new-IsIssued :
    (s : UserService) (cfg : LdapConfig) (username id : Text) (lu : LdapUser) (now signed : ℕ)
    (r : Database × Result User)
    → Created id now r
    → IsIssued s id now signed (enter_new s cfg username lu now signed r)
unfolding enter_new Created IsIssued
enter_new-IsIssued s cfg username id lu now signed (db, err e) h = tt
enter_new-IsIssued s cfg username id lu now signed (db, ok u) h =
    enter-IsIssued s cfg db username id lu u now signed h.0 h.1

bound :
    (s : UserService) (cfg : LdapConfig) (db : Database) (username password id : Text)
    (lu : LdapUser) (now signed : ℕ)
    → s.libraries.ldap_bind username password ≡ some lu
    → login_ldap s cfg db username password none id now signed
      ≡ enter_new s cfg username lu now signed (create_user db (new_ldap_user username lu) id now)
unfolding login_ldap login_bound
bound s cfg db username password id lu now signed e = rw (e, login_ldap) refl

pub login_ldap-IsIssued :
    (s : UserService) (cfg : LdapConfig) (db : Database) (username password id : Text)
    (now signed : ℕ)
    → IsIssued s id now signed (login_ldap s cfg db username password none id now signed)
unfolding login_ldap login_bound IsIssued
login_ldap-IsIssued s cfg db username password id now signed =
    elim (Option-cases (s.libraries.ldap_bind username password)) [
      | inl n ↦ rw (n, IsIssued) tt
      | inr (lu, e) ↦
          subst (IsIssued s id now signed)
            (sym (bound s cfg db username password id lu now signed e))
            (enter_new-IsIssued s cfg username id lu now signed
              (create_user db (new_ldap_user username lu) id now)
              (create_user-Created db (new_ldap_user username lu) id now))
    ]
