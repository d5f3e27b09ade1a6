-- ===== src/Samples/Accounts.antt =====
-- A small installation: one user, one role, a toy signature and a guard.
pub mod Sessions
use nexspence_demo.Api.Identity.{Services}
use nexspence_demo.Accounts.Libraries.{Claims, IsJwt, Libraries}
use nexspence_demo.Prelude.{
  List, Option, Text, [], ap, codes, drop, eq_text, false, if◌then◌else◌, length, ltb, lt→ltb, none,
  refl, some, some≢none, subst, sym, take, true, ℕ, ◌*◌, ◌++◌, ◌/◌, ◌<◌, ◌∷◌, ◌≡◌,
}
use nexspence_demo.Prelude.Dict
use nexspence_demo.Prelude.Searching.{take-append, drop-append}
use nexspence_demo.Domain.{User, Role, UserToken, active, local_source}
use nexspence_demo.Auth.LoginGuard.{Guard, Entry, default_policy}
use nexspence_demo.Accounts.Rows.{Database}

-- Tokens with no roles and no scopes, written out in the clear.
abbrev toy_sign_of : Claims → List Text → List Text → Option ℕ → Option Text
toy_sign_of c [] [] (some i) =
    some (c.expires_at ∷ i ∷ length c.user_id ∷ (c.user_id ++ c.username))
toy_sign_of c [] [] none = none
toy_sign_of c [] (x ∷ scopes) i = none
toy_sign_of c (x ∷ roles) scopes i = none

abbrev toy_claims : ℕ → ℕ → ℕ → Text → Claims
toy_claims e i n rest = record {
  user_id = take n rest;
  username = drop n rest;
  roles = [];
  scopes = [];
  issued_at = some i;
  expires_at = e;
}

abbrev toy_parse : Text → ℕ → Option Claims
toy_parse [] now = none
toy_parse (e ∷ []) now = none
toy_parse (e ∷ i ∷ []) now = none
toy_parse (e ∷ i ∷ n ∷ rest) now = if ltb now e then some (toy_claims e i n rest) else none

abbrev pub toy_libraries : Libraries
toy_libraries = record {
  lower = λ t. t;
  equal_fold = eq_text;
  numeric_date = λ t. t / 1000000000 * 1000000000;
  sign = λ c. toy_sign_of c c.roles c.scopes c.issued_at;
  parse = toy_parse;
  matches_hash = eq_text;
  new_hash = λ t. some t;
  digest = λ t. t;
  ldap_bind = λ u p. some (record { email = []; first_name = []; last_name = []; groups = [] });
}

drop-length : (a b : Text) → drop (length a) (a ++ b) ≡ b
drop-length [] b = refl
drop-length (x ∷ a) b = drop-length a b

toy_claims-same :
    (c : Claims) (i : ℕ)
    → c.roles ≡ []
    → c.scopes ≡ []
    → c.issued_at ≡ some i
    → toy_claims c.expires_at i (length c.user_id) (c.user_id ++ c.username) ≡ record {
      user_id = c.user_id;
      username = c.username;
      roles = c.roles;
      scopes = c.scopes;
      issued_at = c.issued_at;
      expires_at = c.expires_at;
    }
toy_claims-same c i r s q =
    rw (take-append c.user_id c.username, drop-length c.user_id c.username, r, s, q) refl

toy-parse :
    (c : Claims) (roles scopes : List Text) (i : Option ℕ) (t : Text) (now : ℕ)
    → c.roles ≡ roles
    → c.scopes ≡ scopes
    → c.issued_at ≡ i
    → toy_sign_of c roles scopes i ≡ some t
    → now < c.expires_at
    → toy_parse t now ≡ some c
toy-parse c [] [] (some i) t now r s q h lt =
    let text : Text = c.expires_at ∷ i ∷ length c.user_id ∷ (c.user_id ++ c.username) in
    let same : text ≡ t = cc in
    subst (λ x. toy_parse x now ≡ some c) same
      (rw (lt→ltb now c.expires_at lt) (ap (λ x. some x) (toy_claims-same c i r s q)))
toy-parse c [] [] none t now r s q h lt = absurd (some≢none (sym h))
toy-parse c [] (x ∷ scopes) i t now r s q h lt = absurd (some≢none (sym h))
toy-parse c (x ∷ roles) scopes i t now r s q h lt = absurd (some≢none (sym h))

pub toy_libraries-IsJwt : IsJwt toy_libraries
toy_libraries-IsJwt = record {
  parse-sign = λ c t now h lt. toy-parse c c.roles c.scopes c.issued_at t now refl refl refl h lt;
  whole_seconds = λ t. refl;
}

abbrev pub eve : User
eve = record {
  id = codes "7";
  username = codes "eve";
  email = [];
  password_hash = codes "pw";
  first_name = [];
  last_name = [];
  status = active;
  source = local_source;
  roles = [];
  must_reset_password = false;
  last_login = none;
  tokens_valid_after = 0;
}

abbrev pub one_user : Database
one_user = record { users = eve ∷ []; roles = []; user_roles = []; tokens = []; fails = λ c. false }

abbrev pub services : Services
services = record {
  users = record { libraries = toy_libraries; expiry_hours = 1; ldap = none };
  api_tokens = true;
}
