-- ===== src/Api/Middleware/FirstLogin.antt =====
-- The first request with the token of a login that created its user.
use nexspence_demo.Accounts.Directory.{login_ldap}
use nexspence_demo.Api.Middleware.Revoked.{
  authenticate_bearer-revoked, with_roles-cutoff, err≢ok, Result-cases,
}
use nexspence_demo.Accounts.Libraries.{
  IsJwt, LdapConfig, generate_scoped_token, Claims, generate_token, UserService,
}
use nexspence_demo.Accounts.Rows.{
  unavailable, read_user, ok, Database, find_row, get_where, get_user_by_id,
}
use nexspence_demo.Api.Identity.{
  rejected, authenticate_bearer, World, Services, issued_before, jwt_not_revoked,
}
use nexspence_demo.Accounts.Users.Fresh.{login_ldap-IsIssued, IsIssued, StartsWith}
use nexspence_demo.Prelude.{
  Bool-cases, List, Option, Text, [], arith, eq_text, eq_text_refl, false, inl, inr, lt→ltb, none,
  refl, some, subst, sym, true, ℕ, ◌*◌, ◌+◌, ◌/◌, ◌<◌, ◌∙◌, ◌∷◌, ◌≡◌, ◌≢◌,
}
use nexspence_demo.Domain.{User}
use nexspence_demo.Auth.LoginGuard.{Guard}

starting_row :
    (id : Text) (now : ℕ) (users : List User)
    → StartsWith id now users
    → (r : User) × (find_row (λ (x : User). eq_text x.id id) users ≡ some r)
      × (r.tokens_valid_after ≡ now)
unfolding StartsWith find_row
starting_row id now [] h = absurd h
starting_row id now (r ∷ rows) h = (r, ground (arith, h.0, eq_text_refl id), h.1)

first_row-cutoff :
    (db : Database) (id : Text) (now : ℕ) (v : User)
    → StartsWith id now db.users
    → get_user_by_id db id ≡ ok v
    → v.tokens_valid_after ≡ now
unfolding get_user_by_id get_where
first_row-cutoff db id now v h e =
    let (r, found, cut) = starting_row id now db.users h in
    elim (Bool-cases (db.fails read_user)) [
      | inl t ↦ absurd (err≢ok v unavailable (rw (t, get_user_by_id, get_where) at e))
      | inr f ↦ with_roles-cutoff db r v (rw (f, found, get_user_by_id, get_where) at e) ∙ cut
    ]

-- The claims of a login's token.
unfoldable pub claims_of : UserService → User → ℕ → Claims
claims_of s u signed = record {
  user_id = u.id;
  username = u.username;
  roles = u.roles;
  scopes = [];
  issued_at = some (s.libraries.numeric_date signed);
  expires_at = s.libraries.numeric_date (signed + s.expiry_hours * 3600000000000);
}

pub generate_token-claims :
    (s : UserService) (u : User) (signed : ℕ)
    → generate_token s u.id u.username u.roles signed ≡ s.libraries.sign (claims_of s u signed)
unfolding generate_token generate_scoped_token claims_of
generate_token-claims s u signed = refl

jwt_not_revoked-first :
    (db : Database) (claims : Claims) (now t : ℕ)
    → StartsWith claims.user_id now db.users
    → claims.issued_at ≡ some t
    → t < now
    → jwt_not_revoked db claims ≡ false
unfolding jwt_not_revoked issued_before
jwt_not_revoked-first db claims now t h i lt =
    elim (Result-cases (get_user_by_id db claims.user_id)) [
      | inl (e, r) ↦ rw (r, jwt_not_revoked) refl
      | inr (u, r) ↦
          let cut = first_row-cutoff db claims.user_id now u h r in
          rw (r, i, cut, lt→ltb t now lt, jwt_not_revoked) refl
    ]

-- A first LDAP login that creates the user and is signed within the second of the creation gives a
-- token that is refused as invalidated: its issue date is cut to that second's start, and the new
-- row's cutoff is the moment of the creation.
pub first_login-refused :
    (s : Services) (cfg : LdapConfig) (db e : Database) (guard : Option Guard)
    (username password token id : Text) (u : User) (now signed later : ℕ)
    → IsJwt s.users.libraries
    → login_ldap s.users cfg db username password none id now signed ≡ (e, ok (token, u))
    → id ≢ []
    → signed / 1000000000 * 1000000000 < now
    → later < s.users.libraries.numeric_date (signed + s.users.expiry_hours * 3600000000000)
    → let w : World = record { db = e; guard = guard } in
      authenticate_bearer s w token later ≡ (w, rejected true)
unfolding claims_of IsIssued
first_login-refused s cfg db e guard username password token id u now signed later jwt h named cut
      before =
    let w : World = record { db = e; guard = guard } in
    let (row, same, signs) =
      subst (IsIssued s.users id now signed) h
        (login_ldap-IsIssued s.users cfg db username password id now signed) in
    let claims = claims_of s.users u signed in
    let parsed : s.users.libraries.parse token later ≡ some claims =
      jwt.parse-sign claims token later (sym (generate_token-claims s.users u signed) ∙ signs)
        before in
    authenticate_bearer-revoked s w token claims later parsed (λ n. named (sym same ∙ n))
      (jwt_not_revoked-first e claims now (s.users.libraries.numeric_date signed)
        (subst (λ i. StartsWith i now e.users) (sym same) row) refl
        (subst (λ t. t < now) (sym (jwt.whole_seconds signed)) cut))
