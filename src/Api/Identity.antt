-- ===== src/Api/Identity.antt =====
-- The authentication middlewares of internal/api/handlers/auth.go. A middleware gets what the request
-- carries and the state that it may change, and either hands a session on or answers itself.
use mathlib.Core.Option
use nexspence_demo.Accounts.Users.{login}
use nexspence_demo.Accounts.Rows.{ok, err, get_user_by_id, Result, Database}
use nexspence_demo.Accounts.Libraries.{Claims, UserService, Libraries}
use nexspence_demo.Accounts.Tokens.{authenticate, token_prefix}
use nexspence_demo.Prelude.{
  Bool, List, Option, Text, [], any_of, codes, eq_text, false, has_prefix, if◌then◌else◌, leb, ltb,
  none, not, some, trim_space, true, ℕ, ◌&&◌, ◌+◌, ◌/◌, ◌==◌, ◌||◌, ◌∷◌,
}
use nexspence_demo.Domain.{User}
use nexspence_demo.Auth.LoginGuard.{Guard, retry_after, record_failure, record_success}

-- What a request carries, as net/http reads it: the method, the Authorization header and
-- BasicAuth's user and password from it.
pub record Credentials : Type 0 where
  pub method : Text
  pub header : Text
  pub basic : Option (Text × Text)

-- The keys username, userID, roles and tokenScopes of the gin context; an empty text or none where a
-- key is not set.
pub record Session : Type 0 where
  pub username : Text
  pub user_id : Text
  pub roles : List Text
  pub token_scopes : List Text

abbrev pub nobody : Session
nobody = record { username = []; user_id = []; roles = []; token_scopes = [] }

-- The answers that end a request.
pub data Denial : Type 0 where
  authentication_required : Denial
  invalid_token : Denial
  token_invalidated : Denial
  invalid_credentials : Denial
  too_many_attempts : ℕ → Denial
  scope_refused : Denial

unfoldable pub status : Denial → ℕ
status authentication_required = 401
status invalid_token = 401
status token_invalidated = 401
status invalid_credentials = 401
status (too_many_attempts s) = 429
status scope_refused = 403

pub data Verdict : Type 0 where
  passed : Session → Verdict
  aborted : Denial → Verdict

-- The state that a middleware may change.
pub record World : Type 0 where
  pub db : Database
  pub guard : Option Guard

-- The services: `api_tokens` is false where tokens is nil.
pub record Services : Type 0 where
  pub users : UserService
  pub api_tokens : Bool

-- When a request runs, and the id that the database would give a new user.
pub record Moment : Type 0 where
  pub now : ℕ
  pub signed : ℕ
  pub new_id : Text

unfoldable pub method_to_action : Text → Text
method_to_action method =
    if eq_text method (codes "PUT")
      || eq_text method (codes "POST")
      || eq_text method (codes "PATCH")
    then codes "write"
    else if eq_text method (codes "DELETE")
    then codes "delete"
    else codes "read"

-- The map of scopesAllow; a name that it lacks has 0.
unfoldable pub rank : Text → ℕ
rank name =
    if eq_text name (codes "read")
    then 1
    else if eq_text name (codes "write")
    then 2
    else if eq_text name (codes "delete")
    then 3
    else 0

unfoldable pub need : Text → ℕ
unfolding rank
need action = if rank action == 0 then rank (codes "read") else rank action

unfoldable pub scopes_allow : Libraries → List Text → Text → Bool
unfolding rank need
scopes_allow l [] action = true
scopes_allow l (s ∷ scopes) action =
    any_of (λ sc. leb (need action) (rank (l.lower (trim_space sc)))) (s ∷ scopes)

-- enforceTokenScopes, on the session so far
unfoldable pub enforce_token_scopes : Libraries → Text → Session → Verdict
enforce_token_scopes l method session =
    if scopes_allow l session.token_scopes (method_to_action method)
    then passed session
    else aborted scope_refused

-- claims.IssuedAt.Before(user.TokensValidAfter)
unfoldable pub issued_before : Option ℕ → ℕ → Bool
issued_before none cutoff = false
issued_before (some t) cutoff = ltb t cutoff

unfoldable pub jwt_not_revoked : Database → Claims → Bool
unfolding issued_before
jwt_not_revoked db claims = elim (get_user_by_id db claims.user_id) [
  | err e ↦ false
  | ok u ↦ not (issued_before claims.issued_at u.tokens_valid_after)
]

-- authenticateBearer's result: the session on success, and otherwise whether the token was revoked.
pub data Bearer : Type 0 where
  accepted : Session → Bearer
  rejected : Bool → Bearer

unfoldable pub session_of : User → List Text → Session
session_of u scopes = record {
  username = u.username;
  user_id = u.id;
  roles = u.roles;
  token_scopes = scopes;
}

unfoldable pub bearer_of_claims : Database → Claims → Bearer
unfolding jwt_not_revoked
bearer_of_claims db claims =
    if eq_text claims.user_id []
    then rejected false
    else if jwt_not_revoked db claims
    then accepted (record {
      username = claims.username;
      user_id = claims.user_id;
      roles = claims.roles;
      token_scopes = claims.scopes;
    })
    else rejected true

unfoldable pub bearer_of_token : Result (User × List Text) → Bearer
unfolding session_of
bearer_of_token (err e) = rejected false
bearer_of_token (ok r) = accepted (session_of r.0 r.1)

unfoldable pub authenticate_bearer : Services → World → Text → ℕ → World × Bearer
unfolding bearer_of_claims bearer_of_token
authenticate_bearer s w raw now = elim (s.users.libraries.parse raw now) [
  | some claims ↦ (w, bearer_of_claims w.db claims)
  | none ↦
      if s.api_tokens
      then (let a = authenticate s.users.libraries w.db raw now in
          (record w { db = a.0 }, bearer_of_token a.1))
      else (w, rejected false)
]

-- An API token given as the password of Basic authentication; none where the password goes on to be
-- checked.
unfoldable pub basic_token : Services → World → Text → ℕ → World × Option Session
unfolding session_of
basic_token s w password now =
    if s.api_tokens && has_prefix password token_prefix
    then (let a = authenticate s.users.libraries w.db password now in
        (record w { db = a.0 }, elim a.1 [ err e ↦ none | ok r ↦ some (session_of r.0 r.1) ]))
    else (w, none)

-- The login behind the guard: what users.Login answers goes into the account's record.
pub data Attempt : Type 0 where
  waiting : ℕ → Attempt
  failed : Attempt
  entered : Session → Attempt

unfoldable pub attempt_of :
    Services → World → Text → ℕ → Database × Result (Text × User) → World × Attempt
unfolding session_of
attempt_of s w username now (db, err e) = (
  record {
    db = db;
    guard = Option.map (λ g. record_failure s.users.libraries.lower g username now) w.guard;
  },
  failed,
)
attempt_of s w username now (db, ok r) = (
  record {
    db = db;
    guard = Option.map (λ g. record_success s.users.libraries.lower g username) w.guard;
  },
  entered (session_of r.1 []),
)

unfoldable pub attempt : Services → World → Text → Text → Moment → World × Attempt
unfolding attempt_of
attempt s w username password at =
    let wait = retry_after s.users.libraries.lower w.guard username at.now in
    if ltb 0 wait
    then (w, waiting wait)
    else attempt_of s w username at.now
        (login s.users w.db username password at.new_id at.now at.signed)

-- retryAfterSeconds: d.Round(time.Second) / time.Second, at least 1; a half goes up
unfoldable pub retry_after_seconds : ℕ → ℕ
retry_after_seconds d = let s = (d + 500000000) / 1000000000 in if ltb s 1 then 1 else s
