-- ===== src/Accounts/Directory.antt =====
-- The LDAP login of internal/service/user_service.go (lines 105-206).
use nexspence_demo.Accounts.Rows.{
  ok, replace_user_roles, update_last_login, update_user, refused, unavailable, list_roles, invalid,
  err, Failure, create_user, user_role_names, Result, read_role_names, Database,
}
use nexspence_demo.Accounts.Libraries.{generate_token, LdapConfig, LdapUser, UserService}
use nexspence_demo.Prelude.{
  Bool, List, Option, Text, [], any_of, codes, drop, eq_text, false, if◌then◌else◌, index, keep_if,
  map, none, not, some, take, ℕ, ◌&&◌, ◌++◌, ◌+◌, ◌||◌, ◌∷◌,
}
use nexspence_demo.Domain.{User, Role, active, ldap_source}

-- stripCNPrefix's cut, which ldapGroupMatch has too: what stands after the first '=' up to a ','.
unfoldable pub first_value : Text → Option Text
first_value configured = elim (index configured (codes "=")) [
  | none ↦ none
  | some i ↦
      let val = drop (i + 1) configured in
      elim (index val (codes ",")) [ none ↦ some val | some end ↦ some (take end val) ]
]

unfoldable pub ldap_group_match : UserService → Text → Text → Bool
unfolding first_value
ldap_group_match s name configured =
    s.libraries.equal_fold name configured
    || elim (first_value configured) [ none ↦ false | some val ↦ s.libraries.equal_fold name val ]

-- want[roleName], role_mappings of one group
unfoldable pub mapped_roles : UserService → List (Text × Text) → Text → List Text
unfolding ldap_group_match
mapped_roles s [] g = []
mapped_roles s ((key, role_name) ∷ m) g =
    let rest = mapped_roles s m g in
    if not (eq_text role_name []) && ldap_group_match s g key then role_name ∷ rest else rest

-- The set `want` of syncLDAPRoles.
unfoldable pub wanted_roles : UserService → LdapConfig → List Text → List Text
unfolding ldap_group_match mapped_roles
wanted_roles s cfg [] = []
wanted_roles s cfg (g ∷ groups) =
    (if not (eq_text cfg.admin_group []) && ldap_group_match s g cfg.admin_group
      then codes "nx-admin" ∷ []
      else [])
    ++ (mapped_roles s cfg.role_mappings g ++ (g ∷ wanted_roles s cfg groups))

unfoldable pub sync_ldap_roles :
    UserService → LdapConfig → Database → Text → List Text → Database × Option Failure
unfolding wanted_roles
sync_ldap_roles s cfg db user_id groups =
    if db.fails list_roles
    then (db, some unavailable)
    else replace_user_roles db user_id (
        map (λ (r : Role). r.id)
          (keep_if (λ (r : Role). any_of (λ w. eq_text w r.name) (wanted_roles s cfg groups))
            db.roles))

-- existing.Roles, read again; a failed read keeps what was there
unfoldable pub reloaded : Database → User → User
reloaded db u = if db.fails read_role_names then u else record u { roles = user_role_names db u.id }

-- The token for a user who may enter, and the best-effort note of the login.
unfoldable pub issue :
    UserService → Database → Text → User → ℕ → ℕ → Database × Result (Text × User)
issue s db username u now signed = elim (generate_token s u.id u.username u.roles signed) [
  | none ↦ (db, err unavailable)
  | some token ↦ ((update_last_login db username now).0, ok (token, u))
]

-- loginLDAP once the local record exists.
unfoldable pub enter :
    UserService
    → LdapConfig
    → Database
    → Text
    → LdapUser
    → User
    → ℕ
    → ℕ
    → Database × Result (Text × User)
unfolding sync_ldap_roles reloaded issue
enter s cfg db username lu u now signed =
    if not (eq_text u.status active)
    then (db, err invalid)
    else let synced = (sync_ldap_roles s cfg db u.id lu.groups).0 in
      issue s synced username (reloaded synced u) now signed

-- The record that loginLDAP creates.
unfoldable pub new_ldap_user : Text → LdapUser → User
new_ldap_user username lu = record {
  id = [];
  username = username;
  email = lu.email;
  password_hash = [];
  first_name = lu.first_name;
  last_name = lu.last_name;
  status = active;
  source = ldap_source;
  roles = [];
  must_reset_password = false;
  last_login = none;
  tokens_valid_after = 0;
}

-- A non-empty value of the directory replaces the old one.
unfoldable pub preferred : Text → Text → Text
preferred [] old = old
preferred (c ∷ t) old = c ∷ t

unfoldable pub merged : LdapUser → User → User
unfolding preferred
merged lu u = record u {
  email = preferred lu.email u.email;
  first_name = preferred lu.first_name u.first_name;
  last_name = preferred lu.last_name u.last_name;
}

unfoldable pub enter_new :
    UserService
    → LdapConfig
    → Text
    → LdapUser
    → ℕ
    → ℕ
    → Database × Result User
    → Database × Result (Text × User)
unfolding enter
enter_new s cfg username lu now signed (db, err e) = (db, err e)
enter_new s cfg username lu now signed (db, ok u) = enter s cfg db username lu u now signed

-- The directory's answer is in.
unfoldable pub login_bound :
    UserService
    → LdapConfig
    → Database
    → Text
    → LdapUser
    → Option User
    → Text
    → ℕ
    → ℕ
    → Database × Result (Text × User)
unfolding enter_new new_ldap_user merged enter
login_bound s cfg db username lu none id now signed =
    enter_new s cfg username lu now signed (create_user db (new_ldap_user username lu) id now)
login_bound s cfg db username lu (some u) id now signed =
    enter s cfg (update_user db (merged lu u)).0 username lu (merged lu u) now signed

-- `id` is the one that the database gives a new row; `now` is its clock, `signed` the signer's.
unfoldable pub login_ldap :
    UserService
    → LdapConfig
    → Database
    → Text
    → Text
    → Option User
    → Text
    → ℕ
    → ℕ
    → Database × Result (Text × User)
unfolding login_bound
login_ldap s cfg db username password existing id now signed =
    elim (s.libraries.ldap_bind username password) [
      | none ↦ (db, err refused)
      | some lu ↦ login_bound s cfg db username lu existing id now signed
    ]
