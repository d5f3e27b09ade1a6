-- ===== src/Accounts/Libraries.antt =====
-- What the services and the handlers take from packages outside of the repository, and
-- internal/auth/auth.go above them.
use nexspence_demo.Prelude.{Bool, List, Option, Text, [], some, ℕ, ◌*◌, ◌+◌, ◌/◌, ◌<◌, ◌≡◌}

-- Claims; `expires_at` and `issued_at` are jwt.RegisteredClaims'.
pub record Claims : Type 0 where
  pub user_id : Text
  pub username : Text
  pub roles : List Text
  pub scopes : List Text
  pub issued_at : Option ℕ
  pub expires_at : ℕ

-- ldap.Authenticate's LDAPUser
pub record LdapUser : Type 0 where
  pub email : Text
  pub first_name : Text
  pub last_name : Text
  pub groups : List Text

-- strings.ToLower and EqualFold; jwt's NewNumericDate, SignedString and ParseWithClaims with the
-- secret; bcrypt's CompareHashAndPassword and GenerateFromPassword; sha256 in hex; the LDAP server.
pub record Libraries : Type 0 where
  pub lower : Text → Text
  pub equal_fold : Text → Text → Bool
  pub numeric_date : ℕ → ℕ
  pub sign : Claims → Option Text
  pub parse : Text → ℕ → Option Claims
  pub matches_hash : Text → Text → Bool
  pub new_hash : Text → Option Text
  pub digest : Text → Text
  pub ldap_bind : Text → Text → Option LdapUser

-- A signed token is read back until it expires, and a date is cut to whole seconds.
pub record IsJwt (l : Libraries) : Type 0 where
  pub parse-sign :
      (c : Claims) (t : Text) (now : ℕ)
      → l.sign c ≡ some t
      → now < c.expires_at
      → l.parse t now ≡ some c
  pub whole_seconds : (t : ℕ) → l.numeric_date t ≡ t / 1000000000 * 1000000000

-- LDAPConfig
pub record LdapConfig : Type 0 where
  pub admin_group : Text
  pub role_mappings : List (Text × Text)

-- auth.Service's expiry and UserService's directory, `none` where LDAP is off
pub record UserService : Type 0 where
  pub libraries : Libraries
  pub expiry_hours : ℕ
  pub ldap : Option LdapConfig

-- GenerateToken and GenerateScopedToken
unfoldable pub generate_scoped_token :
    UserService → Text → Text → List Text → List Text → ℕ → Option Text
generate_scoped_token s user_id username roles scopes now = s.libraries.sign (record {
  user_id = user_id;
  username = username;
  roles = roles;
  scopes = scopes;
  issued_at = some (s.libraries.numeric_date now);
  expires_at = s.libraries.numeric_date (now + s.expiry_hours * 3600000000000);
})

unfoldable pub generate_token : UserService → Text → Text → List Text → ℕ → Option Text
generate_token s user_id username roles now = generate_scoped_token s user_id username roles [] now
