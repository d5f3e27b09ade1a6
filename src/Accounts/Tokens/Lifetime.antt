-- ===== src/Accounts/Tokens/Lifetime.antt =====
-- From the creation of an API token to its use.
use nexspence_demo.Accounts.Tokens.{
  admit, is_expired, all_known, create, given_out, authenticate, token_prefix,
}
use nexspence_demo.Accounts.Rows.{
  user_role_names, with_roles, get_where, touch_last_used, find_row, get_user_by_id,
  get_token_by_hash, read_token, insert_token, ok, err, Result, Database, create_token,
}
use nexspence_demo.Accounts.Libraries.{Libraries}
use nexspence_demo.Prelude.{
  Bool-cases, List, Option, Text, [], any_of, ap, eq_text, eq_text_refl, false, has_prefix-append,
  inl, inr, none, not, refl, some, subst, sym, trim_space, true, ℕ, ◌++◌, ◌||◌, ◌∙◌, ◌∷◌, ◌≡◌,
}
use nexspence_demo.Domain.{User, UserToken, active}

-- The record that Create stores for the plaintext.
abbrev pub row_of : Libraries → Text → Text → List Text → Option ℕ → Text → Text → UserToken
row_of l user_id name scopes expires_at raw id = record {
  id = id;
  user_id = user_id;
  name = name;
  token_hash = l.digest raw;
  scopes = scopes;
  last_used = none;
  expires_at = expires_at;
}

-- What a creation leaves behind, when it succeeds.
IsStored :
    Libraries
    → Database
    → Text
    → Text
    → List Text
    → Option ℕ
    → Text
    → Text
    → Database × Result (UserToken × Text)
    → Type 0
IsStored l db user_id name scopes expires_at hex id (e, err f) = Unit
IsStored l db user_id name scopes expires_at hex id (e, ok r) =
    let raw = token_prefix ++ hex in
    let row = row_of l user_id name scopes expires_at raw id in
    (r ≡ (row, raw)) × (e ≡ record db { tokens = row ∷ db.tokens })

create_token-row :
    (db : Database) (t : UserToken) (id : Text)
    → (db.fails insert_token
        || any_of (λ (v : UserToken). eq_text v.token_hash t.token_hash) db.tokens
        || not (any_of (λ (u : User). eq_text u.id t.user_id) db.users))
      ≡ false
    → let row : UserToken = record t { id = id; last_used = none } in
      create_token db t id ≡ (record db { tokens = row ∷ db.tokens }, ok row)
unfolding create_token
create_token-row db t id f = rw (f, create_token) refl

given_out-IsStored :
    (l : Libraries) (db : Database) (user_id name : Text) (scopes : List Text)
    (expires_at : Option ℕ) (hex id : Text)
    → IsStored l db user_id name scopes expires_at hex id (
        given_out
          (token_prefix ++ hex)
          (create_token db (row_of l user_id name scopes expires_at (token_prefix ++ hex) []) id))
unfolding create_token given_out IsStored
given_out-IsStored l db user_id name scopes expires_at hex id =
    let t = row_of l user_id name scopes expires_at (token_prefix ++ hex) [] in
    elim (Bool-cases (
      db.fails insert_token
      || any_of (λ (v : UserToken). eq_text v.token_hash t.token_hash) db.tokens
      || not (any_of (λ (u : User). eq_text u.id t.user_id) db.users))) [
        | inl b ↦ rw (b, IsStored) tt
        | inr f ↦
            subst
              (λ r.
                IsStored l db user_id name scopes expires_at hex id
                  (given_out (token_prefix ++ hex) r))
              (sym (create_token-row db t id f)) (refl, refl)
      ]

create-IsStored :
    (l : Libraries) (db : Database) (user_id name : Text) (scopes : List Text)
    (expires_at : Option ℕ) (hex id : Text)
    → IsStored l db user_id name scopes expires_at hex id
        (create l db user_id name scopes expires_at (some hex) id)
unfolding create IsStored
create-IsStored l db user_id name scopes expires_at hex id =
    elim (Bool-cases (eq_text (trim_space name) [])) [
      | inl b ↦ rw (b, IsStored) tt
      | inr f ↦ elim (Bool-cases (not (all_known l scopes))) [
        | inl b ↦ rw (f, b, IsStored) tt
        | inr g ↦ rw (f, g) (owned (get_user_by_id db user_id))
      ]
    ]
  where
    owned :
        (r : Result User)
        → IsStored l db user_id name scopes expires_at hex id (elim r [
          | err e ↦ (db, err e)
          | ok u ↦ given_out (token_prefix ++ hex) (
              create_token db (row_of l user_id name scopes expires_at (token_prefix ++ hex) []) id)
        ])
    owned (err e) = tt
    owned (ok u) = given_out-IsStored l db user_id name scopes expires_at hex id

stored_token :
    (l : Libraries) (db : Database) (row : UserToken) (raw : Text)
    → db.fails read_token ≡ false
    → eq_text row.token_hash (l.digest raw) ≡ true
    → get_token_by_hash (record db { tokens = row ∷ db.tokens }) (l.digest raw) ≡ ok row
unfolding get_token_by_hash find_row
stored_token l db row raw f same = rw (f, same, get_token_by_hash) refl

same_owner :
    (db : Database) (tokens : List UserToken) (user_id : Text)
    → get_user_by_id (record db { tokens = tokens }) user_id ≡ get_user_by_id db user_id
unfolding get_user_by_id get_where with_roles user_role_names
same_owner db tokens user_id = refl

-- A stored token that has not run out admits its active owner.
authenticate-row :
    (l : Libraries) (db : Database) (user_id name : Text) (scopes : List Text)
    (expires_at : Option ℕ) (hex id : Text) (u : User) (now : ℕ)
    → let row = row_of l user_id name scopes expires_at (token_prefix ++ hex) id in
      let e : Database = record db { tokens = row ∷ db.tokens } in
      db.fails read_token ≡ false
      → get_user_by_id db user_id ≡ ok u
      → u.status ≡ active
      → is_expired row now ≡ false
      → authenticate l e (token_prefix ++ hex) now ≡ (touch_last_used e id now, ok (u, scopes))
unfolding authenticate get_token_by_hash find_row admit
authenticate-row l db user_id name scopes expires_at hex id u now f owner a x =
    let row = row_of l user_id name scopes expires_at (token_prefix ++ hex) id in
    let e : Database = record db { tokens = row ∷ db.tokens } in
    let found =
      stored_token l db row (token_prefix ++ hex) f
        (eq_text_refl (l.digest (token_prefix ++ hex))) in
    let prefixed = has_prefix-append token_prefix hex in
    let owned = same_owner db (row ∷ db.tokens) user_id ∙ owner in
    let is_active = ap (λ t. eq_text t active) a ∙ eq_text_refl active in
    rw (prefixed, found, x, owned, is_active, authenticate, admit) refl

-- A token that Create gives out opens a session of its owner with exactly the scopes that it was
-- created with, as long as it has not run out, its owner is active and the two rows can be read.
pub create-authenticate :
    (l : Libraries) (db e : Database) (user_id name : Text) (scopes : List Text)
    (expires_at : Option ℕ) (hex id raw : Text) (t : UserToken) (u : User) (now : ℕ)
    → create l db user_id name scopes expires_at (some hex) id ≡ (e, ok (t, raw))
    → db.fails read_token ≡ false
    → get_user_by_id db user_id ≡ ok u
    → u.status ≡ active
    → is_expired t now ≡ false
    → authenticate l e raw now ≡ (touch_last_used e t.id now, ok (u, scopes))
unfolding IsStored
create-authenticate l db e user_id name scopes expires_at hex id raw t u now h f owner a x =
    let (same, stored) =
      subst (IsStored l db user_id name scopes expires_at hex id) h
        (create-IsStored l db user_id name scopes expires_at hex id) in
    let row_same = ap (λ p. p.0) same in
    rw (stored, row_same, ap (λ p. p.1) same)
      (authenticate-row l db user_id name scopes expires_at hex id u now f owner a
        (subst (λ z. is_expired z now ≡ false) row_same x))
