-- ===== src/Api/Middleware/Throttled.antt =====
-- A waiting account at the middlewares that take a password.
use nexspence_demo.Api.Middleware.{
  session_after, basic_session, ping_after, ping_basic, answer_of, basic_answer, bearer_of,
  basic_verdict, slow_down, optional_auth, docker_v2_auth, auth_middleware,
}
use nexspence_demo.Api.Identity.{
  nobody, too_many_attempts, aborted, retry_after_seconds, waiting, Credentials, Moment, World,
  Services, attempt, basic_token,
}
use nexspence_demo.Prelude.{
  Text, [], arith, codes, cut_prefix, eq_text_nil, false, has_prefix, lt→ltb, none, refl, some,
  true, ℕ, ◌<◌, ◌∷◌, ◌≡◌, ◌≢◌,
}
use nexspence_demo.Accounts.Tokens.{token_prefix}
use nexspence_demo.Auth.LoginGuard.{retry_after}

basic_token-password :
    (s : Services) (w : World) (password : Text) (now : ℕ)
    → has_prefix password token_prefix ≡ false
    → basic_token s w password now ≡ (w, none)
unfolding basic_token
basic_token-password s w password now h = ground (arith, h)

attempt-waiting :
    (s : Services) (w : World) (username password : Text) (at : Moment)
    → 0 < retry_after s.users.libraries.lower w.guard username at.now
    → attempt s w username password at
      ≡ (w, waiting (retry_after s.users.libraries.lower w.guard username at.now))
unfolding attempt
attempt-waiting s w username password at h = rw (lt→ltb _ _ h) refl

bearer_of-basic : (h : Text) → has_prefix h (codes "Basic ") ≡ true → bearer_of h ≡ []
unfolding bearer_of has_prefix cut_prefix
bearer_of-basic [] b = refl
bearer_of-basic (x ∷ []) b = ground (arith, b)
bearer_of-basic (x ∷ y ∷ h) b = ground (arith, b)

has_prefix-basic :
    (h : Text) → has_prefix h (codes "Basic ") ≡ true → has_prefix h (codes "Bearer ") ≡ false
unfolding has_prefix
has_prefix-basic [] b = refl
has_prefix-basic (x ∷ []) b = ground (arith, b)
has_prefix-basic (x ∷ y ∷ h) b = ground (arith, b)

-- While an account has to wait, a password for it (one that is no API token) is answered with 429 and
-- the seconds to wait by AuthMiddleware and by the registry's ping, and taken for no credential at
-- all by OptionalAuth. The answer is the same for every password and for every set of accounts, and
-- nothing changes: no password is checked and no failure is counted.
pub waiting_account-answers :
    (s : Services) (c : Credentials) (w : World) (at : Moment) (username password : Text)
    → has_prefix c.header (codes "Basic ") ≡ true
    → c.basic ≡ some (username, password)
    → username ≢ []
    → has_prefix password token_prefix ≡ false
    → 0 < retry_after s.users.libraries.lower w.guard username at.now
    → let wait =
        retry_after_seconds (retry_after s.users.libraries.lower w.guard username at.now) in
      (auth_middleware s c w at ≡ (w, aborted (too_many_attempts wait)))
      × (docker_v2_auth s c w at ≡ (w, slow_down wait))
      × (optional_auth s c w at ≡ (w, nobody))
unfolding auth_middleware docker_v2_auth optional_auth basic_verdict basic_answer answer_of
    ping_basic ping_after basic_session session_after cut_prefix retry_after_seconds
waiting_account-answers s c w at username password b e u p h =
    let bearer = bearer_of-basic c.header b in
    let not_bearer = has_prefix-basic c.header b in
    let not_token = basic_token-password s w password at.now p in
    let waits = attempt-waiting s w username password at h in
    let named = eq_text_nil username u in
    (
      rw (bearer, e, not_token, waits) refl,
      rw (not_bearer, b, e, not_token, waits) refl,
      rw (not_bearer, e, named, not_token, waits) refl,
    )
