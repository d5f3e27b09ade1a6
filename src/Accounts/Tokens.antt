-- ===== src/Accounts/Tokens.antt =====
-- TokenService of internal/service/token_service.go: API tokens, of which only a digest is kept.
pub mod Lifetime
use nexspence_demo.Accounts.Rows.{
  create_token, unavailable, touch_last_used, ok, get_token_by_hash, get_user_by_id, invalid,
  refused, err, Result, Database,
}
use nexspence_demo.Accounts.Libraries.{Libraries}
use nexspence_demo.Prelude.{
  Bool, List, Option, Text, [], codes, eq_text, false, has_prefix, if◌then◌else◌, ltb, none, not,
  some, trim_space, true, ℕ, ◌&&◌, ◌++◌, ◌||◌, ◌∷◌,
}
use nexspence_demo.Domain.{User, UserToken, active}

abbrev pub token_prefix : Text
token_prefix = codes "nxs_"

-- The switch on strings.ToLower(strings.TrimSpace(sc)).
unfoldable pub is_known_scope : Libraries → Text → Bool
is_known_scope l scope =
    let name = l.lower (trim_space scope) in
    eq_text name (codes "read") || eq_text name (codes "write") || eq_text name (codes "delete")

unfoldable pub all_known : Libraries → List Text → Bool
unfolding is_known_scope
all_known l [] = true
all_known l (x ∷ scopes) = is_known_scope l x && all_known l scopes

-- The answer of Create carries the plaintext.
unfoldable pub given_out : Text → Database × Result UserToken → Database × Result (UserToken × Text)
given_out raw (db, err e) = (db, err e)
given_out raw (db, ok t) = (db, ok (t, raw))

-- Create. `secret` is the hex text of the 32 random bytes, none when rand.Read fails; the answer is
-- the stored record and the plaintext.
unfoldable pub create :
    Libraries
    → Database
    → Text
    → Text
    → List Text
    → Option ℕ
    → Option Text
    → Text
    → Database × Result (UserToken × Text)
unfolding all_known given_out
create l db user_id name scopes expires_at secret id =
    if eq_text (trim_space name) []
    then (db, err invalid)
    else if not (all_known l scopes)
    then (db, err invalid)
    else elim (get_user_by_id db user_id) [
      | err e ↦ (db, err e)
      | ok u ↦ elim secret [
        | none ↦ (db, err unavailable)
        | some hex ↦ given_out (token_prefix ++ hex) (
            create_token db
              (record {
                id = [];
                user_id = user_id;
                name = name;
                token_hash = l.digest (token_prefix ++ hex);
                scopes = scopes;
                last_used = none;
                expires_at = expires_at;
              })
              id)
      ]
    ]

-- tok.ExpiresAt != nil && time.Now().After(*tok.ExpiresAt)
unfoldable pub is_expired : UserToken → ℕ → Bool
is_expired t now = elim t.expires_at [ none ↦ false | some end ↦ ltb end now ]

-- Authenticate below the lookup of the owner.
unfoldable pub admit : Database → UserToken → Result User → ℕ → Database × Result (User × List Text)
admit db t (err e) now = (db, err e)
admit db t (ok u) now =
    if eq_text u.status active
    then (touch_last_used db t.id now, ok (u, t.scopes))
    else (db, err refused)

unfoldable pub authenticate : Libraries → Database → Text → ℕ → Database × Result (User × List Text)
unfolding is_expired admit
authenticate l db raw now =
    if not (has_prefix raw token_prefix)
    then (db, err refused)
    else elim (get_token_by_hash db (l.digest raw)) [
      | err e ↦ (db, err e)
      | ok t ↦
          if is_expired t now
          then (db, err refused)
          else admit db t (get_user_by_id db t.user_id) now
    ]
