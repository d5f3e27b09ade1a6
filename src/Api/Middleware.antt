-- ===== src/Api/Middleware.antt =====
-- AuthMiddleware, DockerV2Auth, QueryTokenAuth and OptionalAuth of internal/api/handlers/auth.go.
pub mod Throttled
pub mod Revoked
pub mod FirstLogin
pub mod SignedIn
use nexspence_demo.Api.Identity.{
  passed, invalid_token, failed, invalid_credentials, authentication_required, entered,
  token_invalidated, too_many_attempts, attempt, nobody, aborted, retry_after_seconds, basic_token,
  enforce_token_scopes, rejected, accepted, Verdict, Moment, waiting, Attempt, authenticate_bearer,
  Bearer, Credentials, Session, World, Services,
}
use nexspence_demo.Prelude.{
  Option, Text, [], codes, cut_prefix, eq_text, has_prefix, if◌then◌else◌, none, not, some, ℕ, ◌&&◌,
  ◌++◌, ◌∷◌,
}

-- The token of `Authorization: Bearer <token>`, empty for every other header.
unfoldable pub bearer_of : Text → Text
bearer_of header = elim (cut_prefix header (codes "Bearer ")) [ none ↦ [] | some raw ↦ raw ]

-- AuthMiddleware's answer to an attempt with a password.
unfoldable pub answer_of : World × Attempt → World × Verdict
answer_of (w, waiting wait) = (w, aborted (too_many_attempts (retry_after_seconds wait)))
answer_of (w, failed) = (w, aborted invalid_credentials)
answer_of (w, entered session) = (w, passed session)

unfoldable pub basic_answer :
    Services → Text → World × Option Session → Text → Text → Moment → World × Verdict
unfolding answer_of
basic_answer s method (w, some session) username password at =
    (w, enforce_token_scopes s.users.libraries method session)
basic_answer s method (w, none) username password at = answer_of (attempt s w username password at)

unfoldable pub basic_verdict : Services → Credentials → World → Moment → World × Verdict
unfolding basic_answer
basic_verdict s c w at = elim c.basic [
  | none ↦ (w, aborted authentication_required)
  | some p ↦ basic_answer s c.method (basic_token s w p.1 at.now) p.0 p.1 at
]

unfoldable pub bearer_answer : Services → Text → World × Bearer → World × Verdict
bearer_answer s method (w, rejected revoked) =
    (w, aborted (if revoked then token_invalidated else invalid_token))
bearer_answer s method (w, accepted session) =
    (w, enforce_token_scopes s.users.libraries method session)

unfoldable pub auth_middleware : Services → Credentials → World → Moment → World × Verdict
unfolding bearer_of basic_verdict bearer_answer
auth_middleware s c w at = elim (bearer_of c.header) [
  | [] ↦ basic_verdict s c w at
  | x ∷ raw ↦ bearer_answer s c.method (authenticate_bearer s w (x ∷ raw) at.now)
]

-- QueryTokenAuth: `token` is the query parameter, empty when it is absent. A header set here is not
-- Basic.
unfoldable pub query_token_auth : Services → Credentials → Text → World → Moment → World × Verdict
query_token_auth s c token w at =
    if eq_text c.header [] && not (eq_text token [])
    then auth_middleware s (record c { header = codes "Bearer " ++ token; basic = none }) w at
    else auth_middleware s c w at

-- OptionalAuth after a password: a wait and a failure go on as nobody.
unfoldable pub session_after : World × Attempt → World × Session
session_after (w, waiting wait) = (w, nobody)
session_after (w, failed) = (w, nobody)
session_after (w, entered session) = (w, session)

unfoldable pub basic_session :
    Services → World × Option Session → Text → Text → Moment → World × Session
unfolding session_after
basic_session s (w, some session) username password at = (w, session)
basic_session s (w, none) username password at = session_after (attempt s w username password at)

unfoldable pub bearer_session : World × Bearer → World × Session
bearer_session (w, rejected revoked) = (w, nobody)
bearer_session (w, accepted session) = (w, session)

unfoldable pub optional_auth : Services → Credentials → World → Moment → World × Session
unfolding basic_session bearer_session bearer_of
optional_auth s c w at =
    if has_prefix c.header (codes "Bearer ")
    then bearer_session (authenticate_bearer s w (bearer_of c.header) at.now)
    else elim c.basic [
      | none ↦ (w, nobody)
      | some p ↦
          if eq_text p.0 []
          then (w, nobody)
          else basic_session s (basic_token s w p.1 at.now) p.0 p.1 at
    ]

-- The answers of DockerV2Auth: 200, a 401 with the Bearer challenge, or 429.
pub data Ping : Type 0 where
  welcome : Ping
  challenge : Ping
  slow_down : ℕ → Ping

unfoldable pub ping_after : World × Attempt → World × Ping
ping_after (w, waiting wait) = (w, slow_down (retry_after_seconds wait))
ping_after (w, failed) = (w, challenge)
ping_after (w, entered session) = (w, welcome)

unfoldable pub ping_basic : Services → World × Option Session → Text → Text → Moment → World × Ping
unfolding ping_after
ping_basic s (w, some session) username password at = (w, welcome)
ping_basic s (w, none) username password at = ping_after (attempt s w username password at)

-- An API token is welcome if it authenticates; a JWT if its signature holds.
unfoldable pub ping_token : World × Bearer → World × Ping
ping_token (w, accepted session) = (w, welcome)
ping_token (w, rejected revoked) = (w, challenge)

unfoldable pub ping_bearer : Services → World → Text → ℕ → World × Ping
unfolding ping_token
ping_bearer s w raw now = elim (s.users.libraries.parse raw now) [
  | some claims ↦ (w, welcome)
  | none ↦ ping_token (authenticate_bearer s w raw now)
]

unfoldable pub docker_v2_auth : Services → Credentials → World → Moment → World × Ping
unfolding ping_basic ping_bearer bearer_of
docker_v2_auth s c w at =
    if has_prefix c.header (codes "Bearer ")
    then ping_bearer s w (bearer_of c.header) at.now
    else if has_prefix c.header (codes "Basic ")
    then elim c.basic [
      | none ↦ (w, challenge)
      | some p ↦ ping_basic s (basic_token s w p.1 at.now) p.0 p.1 at
    ]
    else (w, challenge)
