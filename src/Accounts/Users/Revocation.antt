-- ===== src/Accounts/Users/Revocation.antt =====
-- The operations that end a user's JWTs, and the cutoff that they store.
use nexspence_demo.Accounts.Users.{
  applied, store_password, after_update, update, disables, set_user_roles, change_password,
  set_password, after_password, revoke,
}
use nexspence_demo.Accounts.Libraries.{UserService}
use nexspence_demo.Accounts.Rows.{
  Result, write_password, unavailable, refused, update_password, replace_user_roles, update_user,
  ok, write_cutoff, get_user, Failure, Database, Call, bump_tokens_valid_after, write_users,
  update_rows,
}
use nexspence_demo.Prelude.{
  All, Bool, Bool-cases, List, Option, Text, [], ap, arith, eq_text, false, false≢true,
  if◌then◌else◌, inl, inr, none, refl, some, some≢none, subst, sym, true, ℕ, ◌∙◌, ◌∷◌, ◌≡◌,
}
use nexspence_demo.Domain.{User}

-- One successful operation on the user with the given id, from one database to the next.
pub data Revokes (s : UserService) (now : ℕ) : Database → Text → Database → Type 0 where
  by_reset :
      (db : Database) (username password : Text) (u : User)
      → get_user db username ≡ ok u
      → (set_password s db username password now).1 ≡ none
      → Revokes s now db u.id (set_password s db username password now).0
  by_change :
      (db : Database) (username old_password password : Text) (u : User)
      → get_user db username ≡ ok u
      → (change_password s db username old_password password now).1 ≡ none
      → Revokes s now db u.id (change_password s db username old_password password now).0
  by_roles :
      (db : Database) (user_id : Text) (ids : List Text)
      → (set_user_roles db user_id ids now).1 ≡ none
      → Revokes s now db user_id (set_user_roles db user_id ids now).0
  by_disabling :
      (db : Database) (username : Text) (updates u v : User)
      → get_user db username ≡ ok u
      → disables u updates ≡ true
      → (update db username updates now).1 ≡ ok v
      → Revokes s now db u.id (update db username updates now).0

-- Every user with the id has the cutoff.
abbrev pub HasCutoff : Text → ℕ → User → Type 0
HasCutoff id now u = eq_text u.id id ≡ true → u.tokens_valid_after ≡ now

pub update_rows-cutoff :
    (id : Text) (now : ℕ) (users : List User)
    → All
        (HasCutoff id now)
        (update_rows (λ u. eq_text u.id id) (λ u. record u { tokens_valid_after = now }) users)
unfolding update_rows
update_rows-cutoff id now [] = tt
update_rows-cutoff id now (u ∷ users) = (
  elim (Bool-cases (eq_text u.id id)) [
    | inl same ↦ rw same (λ h. refl)
    | inr apart ↦ rw apart (λ h. absurd (false≢true (sym apart ∙ h)))
  ],
  update_rows-cutoff id now users,
)

-- Once the write of the cutoff succeeds.
revoke-cutoff :
    (db : Database) (id : Text) (now : ℕ)
    → db.fails write_cutoff ≡ false
    → All (HasCutoff id now) (revoke db id now).users
unfolding revoke bump_tokens_valid_after write_users
revoke-cutoff db id now h = rw (h, All) (update_rows-cutoff id now db.users)

after_password-cutoff :
    (r : Database × Option Failure) (id : Text) (now : ℕ)
    → r.0.fails write_cutoff ≡ false
    → (after_password r id now).1 ≡ none
    → All (HasCutoff id now) (after_password r id now).0.users
unfolding after_password
after_password-cutoff (db, some e) id now h done = absurd (some≢none done)
after_password-cutoff (db, none) id now h done = revoke-cutoff db id now h

write_users-fails :
    (c : Call) (p : User → Bool) (f : User → User) (db : Database)
    → (write_users c p f db).0.fails ≡ db.fails
unfolding write_users
write_users-fails c p f db = ground arith

-- A result with the given answer leaves the cutoff at every user with the id.
abbrev Leaves : (A : Type 0) → Text → ℕ → A → Database × A → Type 0
Leaves A id now a r = r.1 ≡ a → All (HasCutoff id now) r.0.users

hashed-cutoff :
    (db : Database) (id username : Text) (now : ℕ) (o : Option Text)
    → db.fails write_cutoff ≡ false
    → Leaves (Option Failure) id now none (elim o [
      | none ↦ (db, some unavailable)
      | some hash ↦ after_password (update_password db username hash) id now
    ])
unfolding update_password
hashed-cutoff db id username now none h done = absurd (some≢none done)
hashed-cutoff db id username now (some hash) h done =
    after_password-cutoff (update_password db username hash) id now
      (ap (λ f. f write_cutoff) (write_users-fails write_password _ _ db) ∙ h) done

store_password-cutoff :
    (s : UserService) (db : Database) (u : User) (username password : Text) (now : ℕ)
    → db.fails write_cutoff ≡ false
    → Leaves (Option Failure) u.id now none (store_password s db u username password now)
unfolding store_password
store_password-cutoff s db u username password now h =
    hashed-cutoff db u.id username now (s.libraries.new_hash password) h

after_update-cutoff :
    (r : Database × Option Failure) (u v : User) (now : ℕ)
    → r.0.fails write_cutoff ≡ false
    → (after_update r u true now).1 ≡ ok v
    → All (HasCutoff u.id now) (after_update r u true now).0.users
unfolding after_update
after_update-cutoff (db, some e) u v now h done = cc
after_update-cutoff (db, none) u v now h done = revoke-cutoff db u.id now h

replace_user_roles-fails :
    (db : Database) (id : Text) (ids : List Text)
    → (replace_user_roles db id ids).0.fails ≡ db.fails
unfolding replace_user_roles
replace_user_roles-fails db id ids = ground arith

update_user-fails : (db : Database) (u : User) → (update_user db u).0.fails ≡ db.fails
unfolding update_user write_users
update_user-fails db u = ground arith

changed-cutoff :
    (s : UserService) (db : Database) (u : User) (username old_password password : Text) (now : ℕ)
    → db.fails write_cutoff ≡ false
    → Leaves (Option Failure) u.id now none (
        if s.libraries.matches_hash u.password_hash old_password
        then store_password s db u username password now
        else (db, some refused))
changed-cutoff s db u username old_password password now h =
    elim (Bool-cases (s.libraries.matches_hash u.password_hash old_password)) [
      | inl t ↦ rw t (store_password-cutoff s db u username password now h)
      | inr f ↦ rw f (λ done. absurd (some≢none done))
    ]

found-reset :
    (s : UserService) (db : Database) (username password : Text) (u : User) (now : ℕ)
    → get_user db username ≡ ok u
    → set_password s db username password now ≡ store_password s db u username password now
unfolding set_password
found-reset s db username password u now e = rw (e, set_password) refl

found-change :
    (s : UserService) (db : Database) (username old_password password : Text) (u : User) (now : ℕ)
    → get_user db username ≡ ok u
    → change_password s db username old_password password now ≡ (
        if s.libraries.matches_hash u.password_hash old_password
        then store_password s db u username password now
        else (db, some refused))
unfolding change_password
found-change s db username old_password password u now e = rw (e, change_password) refl

found-update :
    (db : Database) (username : Text) (updates u : User) (now : ℕ)
    → get_user db username ≡ ok u
    → disables u updates ≡ true
    → update db username updates now
      ≡ after_update (update_user db (applied u updates)) (applied u updates) true now
unfolding update
found-update db username updates u now e d = rw (e, d, update) refl

pub Revokes-cutoff :
    (s : UserService) (now : ℕ) (a : Database) (id : Text) (b : Database)
    → Revokes s now a id b
    → a.fails write_cutoff ≡ false
    → All (HasCutoff id now) b.users
unfolding set_user_roles applied
Revokes-cutoff s now _ _ _ (by_reset db username password u e done) h =
    subst (Leaves (Option Failure) u.id now none) (sym (found-reset s db username password u now e))
      (store_password-cutoff s db u username password now h) done
Revokes-cutoff s now _ _ _ (by_change db username old_password password u e done) h =
    subst (Leaves (Option Failure) u.id now none)
      (sym (found-change s db username old_password password u now e))
      (changed-cutoff s db u username old_password password now h) done
Revokes-cutoff s now _ _ _ (by_roles db id ids done) h =
    after_password-cutoff (replace_user_roles db id ids) id now
      (ap (λ f. f write_cutoff) (replace_user_roles-fails db id ids) ∙ h) done
Revokes-cutoff s now _ _ _ (by_disabling db username updates u v e d done) h =
    subst (Leaves (Result User) u.id now (ok v)) (sym (found-update db username updates u now e d))
      (after_update-cutoff (update_user db (applied u updates)) (applied u updates) v now
        (ap (λ f. f write_cutoff) (update_user-fails db (applied u updates)) ∙ h))
      done
