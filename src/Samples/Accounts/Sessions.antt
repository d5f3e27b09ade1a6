-- ===== src/Samples/Accounts/Sessions.antt =====
-- Sessions in the small installation: logins, tokens, waits and refusals.
use nexspence_demo.Api.Middleware.Throttled.{waiting_account-answers}
use nexspence_demo.Api.Access.Scoped.{scopes-enforced}
use nexspence_demo.Api.Middleware.Revoked.{revoked_token-refused}
use nexspence_demo.Accounts.Tokens.Lifetime.{create-authenticate}
use nexspence_demo.Api.Middleware.SignedIn.{login-authenticate_bearer}
use nexspence_demo.Api.Middleware.FirstLogin.{first_login-refused}
use nexspence_demo.Accounts.Directory.{login_ldap}
use nexspence_demo.Accounts.Users.{set_password, login}
use nexspence_demo.Accounts.Libraries.{Claims, LdapConfig}
use nexspence_demo.Accounts.Rows.{ok, touch_last_used, Database, Result}
use nexspence_demo.Api.Middleware.{slow_down, docker_v2_auth, optional_auth, auth_middleware}
use nexspence_demo.Accounts.Tokens.{authenticate}
use nexspence_demo.Prelude.{
  Option, Text, [], arith, codes, eq_text, false, has_prefix, if◌then◌else◌, none, refl, some,
  trim_space, true, ℕ, ◌++◌, ◌∷◌, ◌≡◌, ◌⊎◌,
}
use nexspence_demo.Prelude.Dict
use nexspence_demo.Samples.Accounts.{services, one_user, eve, toy_libraries, toy_libraries-IsJwt}
use nexspence_demo.Api.Access.Granted.{rbac_middleware-IsExplained, IsExplained}
use nexspence_demo.Api.Access.{scope_refusal, deny_access, rbac_middleware, abort, Request}
use nexspence_demo.Domain.{User, UserToken, Repository}
use nexspence_demo.Rbac.Service.{RbacService}
use nexspence_demo.Auth.LoginGuard.{Guard, Entry, default_policy, retry_after}
use nexspence_demo.Accounts.Users.Revocation.{by_reset}
use nexspence_demo.Api.Identity.{
  scope_refused, too_many_attempts, token_invalidated, session_of, aborted, nobody, rejected,
  Session, authenticate_bearer, World, Credentials, enforce_token_scopes, Moment, accepted,
}
use nexspence_demo.Samples.Access.{main_repo, closed_service}

abbrev calm : World
calm = record { db = one_user; guard = none }

-- The first second and a half, then the third second.
abbrev early : ℕ
early = 1500000000

abbrev late : ℕ
late = 3200000000

abbrev signed_in : Result (Text × User)
signed_in = (login services.users one_user (codes "eve") (codes "pw") [] early early).1

-- What the toy signature makes of eve's claims.
abbrev eve_token : Text
eve_token = 3601000000000 ∷ 1000000000 ∷ 1 ∷ codes "7eve"

abbrev with_login : Database
with_login = record one_user { users = record eve { last_login = some early } ∷ [] }

login-authenticate_bearer_example :
    authenticate_bearer services calm eve_token late ≡ (calm, accepted (session_of eve []))
unfolding login nexspence_demo.Accounts.Rows.get_user nexspence_demo.Accounts.Rows.get_where eq_text
    nexspence_demo.Accounts.Libraries.generate_token
    nexspence_demo.Accounts.Libraries.generate_scoped_token
    nexspence_demo.Accounts.Rows.user_role_names nexspence_demo.Accounts.Rows.update_last_login
    nexspence_demo.Accounts.Rows.write_users nexspence_demo.Accounts.Rows.get_user_by_id
login-authenticate_bearer_example =
    login-authenticate_bearer services one_user with_login calm (codes "eve") (codes "pw") eve_token
      [] eve eve early early late toy_libraries-IsJwt refl (λ e. cc) refl (omega arith)
      (omega arith)

abbrev reset : Database
reset = (set_password services.users one_user (codes "eve") (codes "new") 2000000001).0

abbrev eve_claims : Claims
eve_claims = record {
  user_id = codes "7";
  username = codes "eve";
  roles = [];
  scopes = [];
  issued_at = some 1000000000;
  expires_at = 3601000000000;
}

abbrev at_late : Moment
at_late = record { now = late; signed = late; new_id = [] }

abbrev with_token : Credentials
with_token = record { method = codes "GET"; header = codes "Bearer " ++ eve_token; basic = none }

revoked_token-refused_example :
    let w : World = record { db = reset; guard = none } in
    (auth_middleware services with_token w at_late ≡ (w, aborted token_invalidated))
    × (optional_auth services with_token w at_late ≡ (w, nobody))
unfolding nexspence_demo.Accounts.Rows.get_user nexspence_demo.Accounts.Rows.get_where eq_text
    nexspence_demo.Accounts.Rows.user_role_names set_password
    nexspence_demo.Accounts.Rows.update_password nexspence_demo.Accounts.Rows.write_users
revoked_token-refused_example =
    revoked_token-refused services with_token none at_late eve_claims one_user reset 2000000001
      1000000000 3601000000000 (1000000000 ∷ 1 ∷ codes "7eve")
      (by_reset one_user (codes "eve") (codes "new") eve refl refl) refl (λ e. cc) refl
      (omega arith) refl refl

abbrev directory : LdapConfig
directory = record { admin_group = []; role_mappings = [] }

abbrev mallory : User
mallory = record eve {
  id = codes "8";
  username = codes "mal";
  password_hash = [];
  source = codes "ldap";
}

abbrev mallory_token : Text
mallory_token = 3601000000000 ∷ 1000000000 ∷ 1 ∷ codes "8mal"

abbrev after_first : Database
after_first =
    (login_ldap services.users directory one_user (codes "mal") (codes "x") none (codes "8") early
      early).0

first_login-refused_example :
    let w : World = record { db = after_first; guard = none } in
    authenticate_bearer services w mallory_token late ≡ (w, rejected true)
unfolding login_ldap nexspence_demo.Accounts.Rows.create_user eq_text
    nexspence_demo.Accounts.Libraries.generate_token
    nexspence_demo.Accounts.Libraries.generate_scoped_token
    nexspence_demo.Accounts.Rows.replace_user_roles nexspence_demo.Accounts.Rows.user_role_names
first_login-refused_example =
    first_login-refused services directory one_user after_first none (codes "mal") (codes "x")
      mallory_token (codes "8") mallory early early late toy_libraries-IsJwt refl (λ e. cc)
      (omega arith) (omega arith)

abbrev ci_row : UserToken
ci_row = record {
  id = codes "t";
  user_id = codes "7";
  name = codes "ci";
  token_hash = codes "nxs_ab";
  scopes = codes "read" ∷ [];
  last_used = none;
  expires_at = some late;
}

abbrev with_ci : Database
with_ci = record one_user { tokens = ci_row ∷ [] }

create-authenticate_example :
    authenticate toy_libraries with_ci (codes "nxs_ab") early
    ≡ (touch_last_used with_ci (codes "t") early, ok (eve, codes "read" ∷ []))
unfolding nexspence_demo.Accounts.Tokens.create eq_text nexspence_demo.Prelude.trim_space
    nexspence_demo.Accounts.Rows.get_user_by_id nexspence_demo.Accounts.Rows.get_where
    nexspence_demo.Accounts.Rows.create_token nexspence_demo.Accounts.Rows.user_role_names
    nexspence_demo.Accounts.Tokens.is_expired
create-authenticate_example =
    create-authenticate toy_libraries one_user with_ci (codes "7") (codes "ci") (codes "read" ∷ [])
      (some late) (codes "ab") (codes "t") (codes "nxs_ab") ci_row eve early refl refl refl refl
      refl

abbrev waiting_guard : Guard
waiting_guard = record {
  policy = default_policy;
  store = none;
  entries =
      (codes "eve", record { failures = 9; blocked_until = 5200000000; last_seen = early }) ∷ [];
}

abbrev guarded : World
guarded = record { db = one_user; guard = some waiting_guard }

abbrev with_password : Credentials
with_password = record {
  method = codes "GET";
  header = codes "Basic ZXZlOnB3";
  basic = some (codes "eve", codes "pw");
}

waiting_account-answers_example :
    (auth_middleware services with_password guarded at_late
      ≡ (guarded, aborted (too_many_attempts 2)))
    × (docker_v2_auth services with_password guarded at_late ≡ (guarded, slow_down 2))
    × (optional_auth services with_password guarded at_late ≡ (guarded, nobody))
unfolding nexspence_demo.Prelude.has_prefix retry_after nexspence_demo.Auth.LoginGuard.load Dict.get
    eq_text nexspence_demo.Prelude.trim_space nexspence_demo.Api.Identity.retry_after_seconds
waiting_account-answers_example =
    waiting_account-answers services with_password guarded at_late (codes "eve") (codes "pw") refl
      refl (λ e. cc) refl (omega arith)

abbrev upload : Request
upload = record {
  method = codes "PUT";
  url_path = codes "/repository/main/a";
  repo_name = codes "main";
  path = codes "/a";
  docker_path = [];
  tls = true;
  forwarded_proto = [];
  host = codes "localhost";
}

abbrev only_main : Text → Option Repository
only_main name = if eq_text name (codes "main") then some main_repo else none

abbrev admin_reader : Session
admin_reader = record {
  username = codes "eve";
  user_id = codes "7";
  roles = codes "nx-admin" ∷ [];
  token_scopes = codes "read" ∷ [];
}

scopes-enforced_example :
    (enforce_token_scopes toy_libraries (codes "PUT") admin_reader ≡ aborted scope_refused)
    × ((false ≡ true)
        ⊎ (rbac_middleware toy_libraries closed_service only_main upload admin_reader
            ≡ abort scope_refusal))
unfolding eq_text nexspence_demo.Prelude.trim_space
scopes-enforced_example =
    scopes-enforced toy_libraries closed_service only_main upload admin_reader (codes "read") []
      refl

rbac_middleware-IsExplained_example :
    IsExplained toy_libraries closed_service only_main upload nobody
      (abort (deny_access toy_libraries upload []))
unfolding rbac_middleware nexspence_demo.Api.Identity.scopes_allow eq_text
    nexspence_demo.Rbac.Service.can_access_repo nexspence_demo.Rbac.Service.is_admin
    nexspence_demo.Rbac.Service.anonymous_allowed
rbac_middleware-IsExplained_example =
    rbac_middleware-IsExplained toy_libraries closed_service only_main upload nobody
