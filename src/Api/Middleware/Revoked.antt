-- ===== src/Api/Middleware/Revoked.antt =====
-- JWTs after an operation that ends them.
use nexspence_demo.Api.Middleware.{
  bearer_session, bearer_answer, optional_auth, bearer_of, auth_middleware,
}
use nexspence_demo.Accounts.Libraries.{Claims}
use nexspence_demo.Api.Identity.{
  nobody, token_invalidated, aborted, rejected, World, Moment, bearer_of_claims, Credentials,
  Services, authenticate_bearer, issued_before, jwt_not_revoked,
}
use nexspence_demo.Accounts.Rows.{
  write_cutoff, missing, unavailable, read_user, read_role_names, get_where, err, Database,
  find_row, with_roles, Result, Failure, ok, get_user_by_id,
}
use nexspence_demo.Prelude.{
  All, Bool, Bool-cases, List, Option, Option-cases, Text, [], ap, arith, codes, cut_prefix-append,
  eq_text, eq_text_nil, false, has_prefix, has_prefix-append, inl, inr, lt→ltb, refl, some,
  some≢none, subst, sym, true, ℕ, ◌++◌, ◌<◌, ◌∙◌, ◌∷◌, ◌≡◌, ◌≢◌, ◌⊎◌,
}
use nexspence_demo.Domain.{User}
use nexspence_demo.Auth.LoginGuard.{Guard}
use nexspence_demo.Accounts.Users.Revocation.{Revokes-cutoff, Revokes, HasCutoff}

pub Result-cases :
    {A : Type 0} (r : Result A) → ((e : Failure) × (r ≡ err e)) ⊎ ((a : A) × (r ≡ ok a))
Result-cases (err e) = inl (e, refl)
Result-cases (ok a) = inr (a, refl)

ok≢err : {A : Type 0} (a : A) (e : Failure) → ok a ≢ err e
ok≢err a e h = cc

pub err≢ok : {A : Type 0} (a : A) (e : Failure) → err e ≢ ok a
err≢ok a e h = cc

ok_inj : {A : Type 0} (a b : A) → ok a ≡ ok b → a ≡ b
ok_inj a b h = cc

find_row-All :
    {A : Type 0} (P : A → Type 0) (p : A → Bool) (rows : List A) (x : A)
    → All P rows
    → find_row p rows ≡ some x
    → P x × (p x ≡ true)
unfolding find_row
find_row-All P p [] x h e = absurd (some≢none (sym e))
find_row-All P p (y ∷ rows) x h e = elim (Bool-cases (p y)) [
  | inl t ↦
      (let same : y ≡ x = ground (arith, e, t) in
        (subst P same h.0, subst (λ z. p z ≡ true) same t))
  | inr f ↦ find_row-All P p rows x h.1 (ground (arith, e, f))
]

pub with_roles-cutoff :
    (db : Database) (u v : User)
    → with_roles db u ≡ ok v
    → v.tokens_valid_after ≡ u.tokens_valid_after
unfolding with_roles
with_roles-cutoff db u v e = elim (Bool-cases (db.fails read_role_names)) [
  | inl t ↦ absurd (err≢ok v unavailable (rw (t, with_roles) at e))
  | inr f ↦ sym (ap (λ (w : User). w.tokens_valid_after) (ok_inj _ v (rw (f, with_roles) at e)))
]

found-cutoff :
    (db : Database) (id : Text) (now : ℕ) (u v : User)
    → All (HasCutoff id now) db.users
    → find_row (λ (x : User). eq_text x.id id) db.users ≡ some u
    → with_roles db u ≡ ok v
    → v.tokens_valid_after ≡ now
found-cutoff db id now u v h e r =
    let (cut, same) =
      find_row-All (HasCutoff id now) (λ (x : User). eq_text x.id id) db.users u h e in
    with_roles-cutoff db u v r ∙ cut same

get_user_by_id-cutoff :
    (db : Database) (id : Text) (now : ℕ) (v : User)
    → All (HasCutoff id now) db.users
    → get_user_by_id db id ≡ ok v
    → v.tokens_valid_after ≡ now
unfolding get_user_by_id get_where
get_user_by_id-cutoff db id now v h e = elim (Bool-cases (db.fails read_user)) [
  | inl t ↦ absurd (err≢ok v unavailable (rw (t, get_user_by_id, get_where) at e))
  | inr f ↦ elim (Option-cases (find_row (λ (x : User). eq_text x.id id) db.users)) [
    | inl n ↦ absurd (err≢ok v missing (rw (f, n, get_user_by_id, get_where) at e))
    | inr (u, m) ↦ found-cutoff db id now u v h m (rw (f, m, get_user_by_id, get_where) at e)
  ]
]

jwt_not_revoked-cutoff :
    (db : Database) (claims : Claims) (now t : ℕ)
    → All (HasCutoff claims.user_id now) db.users
    → claims.issued_at ≡ some t
    → t < now
    → jwt_not_revoked db claims ≡ false
unfolding jwt_not_revoked issued_before
jwt_not_revoked-cutoff db claims now t h i lt =
    elim (Result-cases (get_user_by_id db claims.user_id)) [
      | inl (e, r) ↦ rw (r, jwt_not_revoked) refl
      | inr (u, r) ↦
          let cut = get_user_by_id-cutoff db claims.user_id now u h r in
          rw (r, i, cut, lt→ltb t now lt, jwt_not_revoked) refl
    ]

bearer_of-append : (raw : Text) → bearer_of (codes "Bearer " ++ raw) ≡ raw
unfolding bearer_of
bearer_of-append raw = rw (cut_prefix-append (codes "Bearer ") raw, bearer_of) refl

-- authenticateBearer on a JWT whose user has a later cutoff.
pub authenticate_bearer-revoked :
    (s : Services) (w : World) (raw : Text) (claims : Claims) (now : ℕ)
    → s.users.libraries.parse raw now ≡ some claims
    → claims.user_id ≢ []
    → jwt_not_revoked w.db claims ≡ false
    → authenticate_bearer s w raw now ≡ (w, rejected true)
unfolding authenticate_bearer bearer_of_claims
authenticate_bearer-revoked s w raw claims now p named cut =
    rw (p, eq_text_nil claims.user_id named, cut, authenticate_bearer, bearer_of_claims) refl

auth_middleware-revoked :
    (s : Services) (c : Credentials) (w : World) (at : Moment) (x : ℕ) (raw : Text)
    → c.header ≡ codes "Bearer " ++ (x ∷ raw)
    → authenticate_bearer s w (x ∷ raw) at.now ≡ (w, rejected true)
    → (auth_middleware s c w at ≡ (w, aborted token_invalidated))
      × (optional_auth s c w at ≡ (w, nobody))
unfolding auth_middleware optional_auth bearer_answer bearer_session
auth_middleware-revoked s c w at x raw h e =
    let bearer = ap bearer_of h ∙ bearer_of-append (x ∷ raw) in
    let prefixed =
      ap (λ t. has_prefix t (codes "Bearer ")) h ∙ has_prefix-append (codes "Bearer ") (x ∷ raw) in
    (rw (bearer, e, auth_middleware) refl, rw (prefixed, bearer, e, optional_auth) refl)

-- After a password reset, a password change, a change of roles or the disabling of an account, each
-- successful and with the write of the cutoff done, a JWT that was issued to that user before is
-- refused by AuthMiddleware as invalidated, and OptionalAuth takes its bearer for nobody, although
-- its signature still holds.
pub revoked_token-refused :
    (s : Services) (c : Credentials) (guard : Option Guard) (at : Moment) (claims : Claims)
    (a b : Database) (now t x : ℕ) (raw : Text)
    → Revokes s.users now a claims.user_id b
    → a.fails write_cutoff ≡ false
    → claims.user_id ≢ []
    → claims.issued_at ≡ some t
    → t < now
    → c.header ≡ codes "Bearer " ++ (x ∷ raw)
    → s.users.libraries.parse (x ∷ raw) at.now ≡ some claims
    → let w : World = record { db = b; guard = guard } in
      (auth_middleware s c w at ≡ (w, aborted token_invalidated))
      × (optional_auth s c w at ≡ (w, nobody))
revoked_token-refused s c guard at claims a b now t x raw r fine named i lt h p =
    let w : World = record { db = b; guard = guard } in
    let cut = Revokes-cutoff s.users now a claims.user_id b r fine in
    auth_middleware-revoked s c w at x raw h (
      authenticate_bearer-revoked s w (x ∷ raw) claims at.now p named
        (jwt_not_revoked-cutoff b claims now t cut i lt))
