-- ===== src/Api/Middleware/SignedIn.antt =====
-- From a login with a password to a request with its token.
use nexspence_demo.Accounts.Users.{login}
use nexspence_demo.Accounts.Libraries.{IsJwt, Claims}
use nexspence_demo.Accounts.Rows.{ok, get_user_by_id, Database}
use nexspence_demo.Api.Middleware.FirstLogin.{generate_token-claims, claims_of}
use nexspence_demo.Accounts.Users.Signed.{login-IsSigned, IsSigned}
use nexspence_demo.Api.Identity.{
  accepted, World, Services, session_of, issued_before, authenticate_bearer, jwt_not_revoked,
  bearer_of_claims,
}
use nexspence_demo.Prelude.{
  Text, [], arith, eq_text_nil, refl, some, subst, sym, true, ℕ, ◌*◌, ◌+◌, ◌/◌, ◌<◌, ◌∙◌, ◌≡◌, ◌≢◌,
  ◌≤◌,
}
use nexspence_demo.Domain.{User}

bearer_of_claims-kept :
    (db : Database) (claims : Claims) (v : User) (t : ℕ)
    → claims.user_id ≢ []
    → get_user_by_id db claims.user_id ≡ ok v
    → claims.issued_at ≡ some t
    → v.tokens_valid_after ≤ t
    → bearer_of_claims db claims
      ≡ accepted (record {
        username = claims.username;
        user_id = claims.user_id;
        roles = claims.roles;
        token_scopes = claims.scopes;
      })
unfolding bearer_of_claims jwt_not_revoked issued_before
bearer_of_claims-kept db claims v t named r i le =
    let kept : jwt_not_revoked db claims ≡ true = rw (r, i, jwt_not_revoked) (ground (arith, le)) in
    rw (eq_text_nil claims.user_id named, kept, bearer_of_claims) refl

-- The token of a successful login, local or LDAP, opens until it expires a session of the user that
-- the login returned, with that user's roles and no restriction of scopes, as long as the user's row
-- can be read and its cutoff is not after the token's issue date.
pub login-authenticate_bearer :
    (s : Services) (db e : Database) (w : World) (username password token id : Text) (u v : User)
    (now signed later : ℕ)
    → IsJwt s.users.libraries
    → login s.users db username password id now signed ≡ (e, ok (token, u))
    → u.id ≢ []
    → get_user_by_id w.db u.id ≡ ok v
    → v.tokens_valid_after ≤ signed / 1000000000 * 1000000000
    → later < s.users.libraries.numeric_date (signed + s.users.expiry_hours * 3600000000000)
    → authenticate_bearer s w token later ≡ (w, accepted (session_of u []))
unfolding IsSigned claims_of authenticate_bearer session_of
login-authenticate_bearer s db e w username password token id u v now signed later jwt h named r le
      before =
    let signs =
      subst (IsSigned s.users signed) h
        (login-IsSigned s.users db username password id now signed) in
    let claims = claims_of s.users u signed in
    let parsed : s.users.libraries.parse token later ≡ some claims =
      jwt.parse-sign claims token later (sym (generate_token-claims s.users u signed) ∙ signs)
        before in
    let kept =
      bearer_of_claims-kept w.db claims v (s.users.libraries.numeric_date signed) named r refl
        (subst (λ t. v.tokens_valid_after ≤ t) (sym (jwt.whole_seconds signed)) le) in
    rw (parsed, kept, authenticate_bearer) refl
