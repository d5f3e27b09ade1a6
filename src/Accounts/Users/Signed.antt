-- ===== src/Accounts/Users/Signed.antt =====
-- The token of every login that succeeds, local or LDAP.
use nexspence_demo.Accounts.Rows.{
  update_user, get_user, ok, refused, create_user, missing, err, Result, Database,
}
use nexspence_demo.Accounts.Libraries.{generate_token, LdapUser, LdapConfig, UserService}
use nexspence_demo.Accounts.Users.{
  lookup_again, optional, for_directory, Database, login_found, login_local, login, login_directory,
}
use nexspence_demo.Accounts.Directory.{
  merged, reloaded, new_ldap_user, sync_ldap_roles, enter_new, login_bound, issue, enter,
  login_ldap,
}
use nexspence_demo.Prelude.{
  Bool-cases, Option, Option-cases, Text, eq_text, inl, inr, none, some, ℕ, ◌≡◌,
}
use nexspence_demo.Domain.{User, active}

-- The token is the one that GenerateToken makes for the user who is returned.
unfoldable pub IsSigned : UserService → ℕ → Database × Result (Text × User) → Type 0
IsSigned s signed (db, err e) = Unit
IsSigned s signed (db, ok r) = generate_token s r.1.id r.1.username r.1.roles signed ≡ some r.0

issue-IsSigned :
    (s : UserService) (db : Database) (username : Text) (u : User) (now signed : ℕ)
    → IsSigned s signed (issue s db username u now signed)
unfolding issue IsSigned
issue-IsSigned s db username u now signed =
    elim (Option-cases (generate_token s u.id u.username u.roles signed)) [
      | inl n ↦ rw (n, IsSigned) tt
      | inr (t, g) ↦ rw (g, IsSigned) g
    ]

enter-IsSigned :
    (s : UserService) (cfg : LdapConfig) (db : Database) (username : Text) (lu : LdapUser)
    (u : User) (now signed : ℕ)
    → IsSigned s signed (enter s cfg db username lu u now signed)
unfolding enter IsSigned
enter-IsSigned s cfg db username lu u now signed =
    let synced = (sync_ldap_roles s cfg db u.id lu.groups).0 in
    elim (Bool-cases (eq_text u.status active)) [
      | inr f ↦ rw (f, IsSigned) tt
      | inl t ↦ rw t (issue-IsSigned s synced username (reloaded synced u) now signed)
    ]

enter_new-IsSigned :
    (s : UserService) (cfg : LdapConfig) (username : Text) (lu : LdapUser) (now signed : ℕ)
    (r : Database × Result User)
    → IsSigned s signed (enter_new s cfg username lu now signed r)
unfolding enter_new IsSigned
enter_new-IsSigned s cfg username lu now signed (db, err e) = tt
enter_new-IsSigned s cfg username lu now signed (db, ok u) =
    enter-IsSigned s cfg db username lu u now signed

login_bound-IsSigned :
    (s : UserService) (cfg : LdapConfig) (db : Database) (username : Text) (lu : LdapUser)
    (existing : Option User) (id : Text) (now signed : ℕ)
    → IsSigned s signed (login_bound s cfg db username lu existing id now signed)
unfolding login_bound
login_bound-IsSigned s cfg db username lu none id now signed =
    enter_new-IsSigned s cfg username lu now signed
      (create_user db (new_ldap_user username lu) id now)
login_bound-IsSigned s cfg db username lu (some u) id now signed =
    enter-IsSigned s cfg (update_user db (merged lu u)).0 username lu (merged lu u) now signed

login_ldap-IsSigned :
    (s : UserService) (cfg : LdapConfig) (db : Database) (username password : Text)
    (existing : Option User) (id : Text) (now signed : ℕ)
    → IsSigned s signed (login_ldap s cfg db username password existing id now signed)
unfolding login_ldap IsSigned
login_ldap-IsSigned s cfg db username password existing id now signed =
    bound_to (s.libraries.ldap_bind username password)
  where
    bound_to :
        (o : Option LdapUser)
        → IsSigned s signed (elim o [
          | none ↦ (db, err refused)
          | some lu ↦ login_bound s cfg db username lu existing id now signed
        ])
    bound_to none = tt
    bound_to (some lu) = login_bound-IsSigned s cfg db username lu existing id now signed

login_local-IsSigned :
    (s : UserService) (db : Database) (username password : Text) (r : Result User) (now signed : ℕ)
    → IsSigned s signed (login_local s db username password r now signed)
unfolding login_local IsSigned
login_local-IsSigned s db username password (err e) now signed = tt
login_local-IsSigned s db username password (ok u) now signed =
    elim (Bool-cases (eq_text u.status active)) [
      | inr f ↦ rw (f, IsSigned) tt
      | inl t ↦ elim (Bool-cases (s.libraries.matches_hash u.password_hash password)) [
        | inr f ↦ rw (t, f, IsSigned) tt
        | inl m ↦ rw (t, m) (issue-IsSigned s db username u now signed)
      ]
    ]

login_directory-IsSigned :
    (s : UserService) (cfg : LdapConfig) (db : Database) (username password : Text)
    (r : Result (Option User)) (id : Text) (now signed : ℕ)
    → IsSigned s signed (login_directory s cfg db username password r id now signed)
unfolding login_directory IsSigned
login_directory-IsSigned s cfg db username password (err e) id now signed = tt
login_directory-IsSigned s cfg db username password (ok existing) id now signed =
    login_ldap-IsSigned s cfg db (s.libraries.lower username) password existing id now signed

login_found-IsSigned :
    (s : UserService) (cfg : Option LdapConfig) (db : Database) (username password : Text)
    (u : Option User) (id : Text) (now signed : ℕ)
    → IsSigned s signed (login_found s cfg db username password u id now signed)
unfolding login_found
login_found-IsSigned s none db username password u id now signed =
    login_local-IsSigned s db username password (elim u [ none ↦ err missing | some v ↦ ok v ]) now
      signed
login_found-IsSigned s (some cfg) db username password u id now signed =
    elim (Bool-cases (for_directory u)) [
      | inl t ↦ rw t (
          login_directory-IsSigned s cfg db username password (lookup_again s db username u) id now
            signed)
      | inr f ↦ rw f (
          login_local-IsSigned s db username password
            (elim u [ none ↦ err missing | some v ↦ ok v ]) now signed)
    ]

pub login-IsSigned :
    (s : UserService) (db : Database) (username password id : Text) (now signed : ℕ)
    → IsSigned s signed (login s db username password id now signed)
unfolding login IsSigned
login-IsSigned s db username password id now signed = found (optional (get_user db username))
  where
    found :
        (r : Result (Option User))
        → IsSigned s signed (elim r [
          | err e ↦ (db, err e)
          | ok u ↦ login_found s s.ldap db username password u id now signed
        ])
    found (err e) = tt
    found (ok u) = login_found-IsSigned s s.ldap db username password u id now signed
