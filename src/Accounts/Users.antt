-- ===== src/Accounts/Users.antt =====
-- UserService of internal/service/user_service.go: local and LDAP logins and the operations that
-- revoke tokens. Logging is left out.
pub mod Revocation
pub mod Fresh
pub mod Signed
use nexspence_demo.Accounts.Directory.{issue, login_ldap, preferred}
use nexspence_demo.Accounts.Libraries.{LdapConfig, UserService}
use nexspence_demo.Accounts.Rows.{
  create_user, taken, update_user, delete_user, refused, update_password, missing, invalid, err,
  unavailable, replace_user_roles, bump_tokens_valid_after, Failure, ok, get_user, Database, Result,
}
use nexspence_demo.Prelude.{
  Bool, List, Option, Text, [], eq_text, if◌then◌else◌, none, not, some, true, ℕ, ◌&&◌, ◌∷◌,
}
use nexspence_demo.Domain.{User, active, local_source, ldap_source}

-- Login for an account that is not the directory's.
unfoldable pub login_local :
    UserService → Database → Text → Text → Result User → ℕ → ℕ → Database × Result (Text × User)
unfolding nexspence_demo.Accounts.Directory.issue
login_local s db username password (err e) now signed = (db, err e)
login_local s db username password (ok u) now signed =
    if not (eq_text u.status active)
    then (db, err invalid)
    else if not (s.libraries.matches_hash u.password_hash password)
    then (db, err refused)
    else issue s db username u now signed

-- The user of a Get whose ErrNotFound is no error; `err` is every other error.
unfoldable pub optional : Result User → Result (Option User)
optional (ok u) = ok (some u)
optional (err missing) = ok none
optional (err taken) = err taken
optional (err invalid) = err invalid
optional (err refused) = err refused
optional (err unavailable) = err unavailable

-- u == nil || u.Source == UserSourceLDAP
unfoldable pub for_directory : Option User → Bool
for_directory none = true
for_directory (some u) = eq_text u.source ldap_source

-- The second Get, with the normalized name.
unfoldable pub lookup_again : UserService → Database → Text → Option User → Result (Option User)
unfolding optional
lookup_again s db username (some u) = ok (some u)
lookup_again s db username none =
    if eq_text (s.libraries.lower username) username
    then ok none
    else optional (get_user db (s.libraries.lower username))

unfoldable pub login_directory :
    UserService
    → LdapConfig
    → Database
    → Text
    → Text
    → Result (Option User)
    → Text
    → ℕ
    → ℕ
    → Database × Result (Text × User)
login_directory s cfg db username password (err e) id now signed = (db, err e)
login_directory s cfg db username password (ok existing) id now signed =
    login_ldap s cfg db (s.libraries.lower username) password existing id now signed

unfoldable pub login_found :
    UserService
    → Option LdapConfig
    → Database
    → Text
    → Text
    → Option User
    → Text
    → ℕ
    → ℕ
    → Database × Result (Text × User)
unfolding login_local login_directory lookup_again for_directory
login_found s none db username password u id now signed =
    login_local s db username password (elim u [ none ↦ err missing | some v ↦ ok v ]) now signed
login_found s (some cfg) db username password u id now signed =
    if for_directory u
    then login_directory s cfg db username password (lookup_again s db username u) id now signed
    else login_local s db username password (elim u [ none ↦ err missing | some v ↦ ok v ]) now
        signed

unfoldable pub login :
    UserService → Database → Text → Text → Text → ℕ → ℕ → Database × Result (Text × User)
unfolding login_found optional
login s db username password id now signed = elim (optional (get_user db username)) [
  | err e ↦ (db, err e)
  | ok u ↦ login_found s s.ldap db username password u id now signed
]

-- The best-effort revocation at the end of an operation.
unfoldable pub revoke : Database → Text → ℕ → Database
revoke db user_id now = (bump_tokens_valid_after db user_id now).0

unfoldable pub after_password : Database × Option Failure → Text → ℕ → Database × Option Failure
unfolding revoke
after_password (db, some e) user_id now = (db, some e)
after_password (db, none) user_id now = (revoke db user_id now, none)

-- The new password of a user who was found.
unfoldable pub store_password :
    UserService → Database → User → Text → Text → ℕ → Database × Option Failure
unfolding after_password
store_password s db u username new_password now = elim (s.libraries.new_hash new_password) [
  | none ↦ (db, some unavailable)
  | some hash ↦ after_password (update_password db username hash) u.id now
]

unfoldable pub change_password :
    UserService → Database → Text → Text → Text → ℕ → Database × Option Failure
unfolding store_password
change_password s db username old_password new_password now = elim (get_user db username) [
  | err e ↦ (db, some e)
  | ok u ↦
      if s.libraries.matches_hash u.password_hash old_password
      then store_password s db u username new_password now
      else (db, some refused)
]

unfoldable pub set_password : UserService → Database → Text → Text → ℕ → Database × Option Failure
unfolding store_password
set_password s db username new_password now = elim (get_user db username) [
  | err e ↦ (db, some e)
  | ok u ↦ store_password s db u username new_password now
]

unfoldable pub set_user_roles : Database → Text → List Text → ℕ → Database × Option Failure
unfolding after_password
set_user_roles db user_id ids now = after_password (replace_user_roles db user_id ids) user_id now

-- Update's new record: the non-empty fields of `updates`.
unfoldable pub applied : User → User → User
unfolding nexspence_demo.Accounts.Directory.preferred
applied u updates = record u {
  email = preferred updates.email u.email;
  first_name = preferred updates.first_name u.first_name;
  last_name = preferred updates.last_name u.last_name;
  status = preferred updates.status u.status;
}

-- The account goes from active to anything else.
unfoldable pub disables : User → User → Bool
disables u updates =
    not (eq_text updates.status [])
    && eq_text u.status active
    && not (eq_text updates.status active)

unfoldable pub after_update : Database × Option Failure → User → Bool → ℕ → Database × Result User
unfolding revoke
after_update (db, some e) u disabled now = (db, err e)
after_update (db, none) u disabled now = ((if disabled then revoke db u.id now else db), ok u)

unfoldable pub update : Database → Text → User → ℕ → Database × Result User
unfolding after_update applied disables
update db username updates now = elim (get_user db username) [
  | err e ↦ (db, err e)
  | ok u ↦
      after_update (update_user db (applied u updates)) (applied u updates) (disables u updates) now
]

unfoldable pub delete : Database → Text → Database × Option Failure
delete db username = elim (get_user db username) [
  | err e ↦ (db, some e)
  | ok u ↦ delete_user db username
]

-- Create's checks: no name, or a name that is there or cannot be looked up.
unfoldable pub creation_failure : Database → Text → Option Failure
unfolding optional
creation_failure db username =
    if eq_text username [] then some invalid else elim (optional (get_user db username)) [
      | err e ↦ some e
      | ok none ↦ none
      | ok (some u) ↦ some taken
    ]

-- The password's hash, none for an account without a password.
unfoldable pub hashed : UserService → User → Text → Option User
hashed s u [] = some u
hashed s u (c ∷ p) = elim (s.libraries.new_hash (c ∷ p)) [
  | none ↦ none
  | some hash ↦ some (record u { password_hash = hash })
]

unfoldable pub with_defaults : User → User
unfolding nexspence_demo.Accounts.Directory.preferred
with_defaults u = record u {
  status = preferred u.status active;
  source = preferred u.source local_source;
}

-- The roles of a new user; an error comes after the user is stored.
unfoldable pub with_first_roles : Database × Result User → List Text → Database × Result User
with_first_roles (db, err e) ids = (db, err e)
with_first_roles (db, ok u) [] = (db, ok u)
with_first_roles (db, ok u) (r ∷ ids) =
    let done = replace_user_roles db u.id (r ∷ ids) in
    (done.0, elim done.1 [ none ↦ ok u | some e ↦ err e ])

unfoldable pub create : UserService → Database → User → Text → Text → ℕ → Database × Result User
unfolding creation_failure hashed with_defaults with_first_roles
create s db u plain_password id now = elim (creation_failure db u.username) [
  | some e ↦ (db, err e)
  | none ↦ elim (hashed s u plain_password) [
    | none ↦ (db, err unavailable)
    | some v ↦ with_first_roles (create_user db (with_defaults v) id now) u.roles
  ]
]
