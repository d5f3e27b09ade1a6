-- ===== src/Accounts/Rows.antt =====
-- The tables users, roles, user_roles and user_tokens with the statements of user_repo.go,
-- role_repo.go and user_token_repo.go. A row of users has no roles; they are in user_roles.
use nexspence_demo.Prelude.{
  Bool, List, Option, Text, [], any_of, eq_text, false, if◌then◌else◌, keep_if, map, none, not,
  some, true, ℕ, ◌&&◌, ◌||◌, ◌∷◌,
}
use nexspence_demo.Domain.{User, UserToken, Role}

-- The statements that may fail, by table and kind.
pub data Call : Type 0 where
  read_user : Call
  read_role_names : Call
  list_roles : Call
  insert_user : Call
  write_user : Call
  write_password : Call
  write_login : Call
  write_cutoff : Call
  drop_user : Call
  write_roles : Call
  read_token : Call
  insert_token : Call
  drop_token : Call
  write_used : Call

-- What an error says: ErrNotFound, ErrAlreadyExists or a unique violation, ErrInvalidInput,
-- ErrBadPassword or a refused login, and every other error.
pub data Failure : Type 0 where
  missing : Failure
  taken : Failure
  invalid : Failure
  refused : Failure
  unavailable : Failure

pub data Result (A : Type 0) : Type 0 where
  ok : A → Result A
  err : Failure → Result A

-- `fails` says which statements fail now.
pub record Database : Type 0 where
  pub users : List User
  pub roles : List Role
  pub user_roles : List (Text × Text)
  pub tokens : List UserToken
  pub fails : Call → Bool

module _ {A : Type 0} where
  -- The first row that passes, of at most one.
  unfoldable pub find_row : (A → Bool) → List A → Option A
  find_row p [] = none
  find_row p (x ∷ xs) = if p x then some x else find_row p xs

  -- UPDATE ... WHERE p
  unfoldable pub update_rows : (A → Bool) → (A → A) → List A → List A
  update_rows p f [] = []
  update_rows p f (x ∷ xs) = (if p x then f x else x) ∷ update_rows p f xs

-- userRoleNames
unfoldable pub user_role_names : Database → Text → List Text
user_role_names db user_id =
    map (λ (r : Role). r.name)
      (keep_if
        (λ (r : Role).
          any_of (λ (p : Text × Text). eq_text p.0 user_id && eq_text p.1 r.id) db.user_roles)
        db.roles)

unfoldable pub with_roles : Database → User → Result User
with_roles db u =
    if db.fails read_role_names
    then err unavailable
    else ok (record u { roles = user_role_names db u.id })

unfoldable pub get_where : Database → (User → Bool) → Result User
unfolding find_row with_roles
get_where db p =
    if db.fails read_user
    then err unavailable
    else elim (find_row p db.users) [ none ↦ err missing | some u ↦ with_roles db u ]

-- Get and GetByID
unfoldable pub get_user : Database → Text → Result User
get_user db username = get_where db (λ u. eq_text u.username username)

unfoldable pub get_user_by_id : Database → Text → Result User
get_user_by_id db id = get_where db (λ u. eq_text u.id id)

-- One UPDATE of the users table; an error leaves it as it was.
unfoldable pub write_users :
    Call → (User → Bool) → (User → User) → Database → Database × Option Failure
unfolding update_rows
write_users c p f db =
    if db.fails c
    then (db, some unavailable)
    else (record db { users = update_rows p f db.users }, none)

-- The partial unique index on email: an empty one never collides.
unfoldable pub email_taken : Database → Text → Text → Bool
email_taken db username [] = false
email_taken db username (c ∷ e) =
    any_of (λ (u : User). eq_text u.email (c ∷ e) && not (eq_text u.username username)) db.users

-- Update
unfoldable pub update_user : Database → User → Database × Option Failure
unfolding write_users email_taken
update_user db u =
    if email_taken db u.username u.email
    then (db, some taken)
    else write_users write_user (λ v. eq_text v.username u.username)
        (λ v. record v {
          email = u.email;
          first_name = u.first_name;
          last_name = u.last_name;
          status = u.status;
        })
        db

-- UpdatePassword, UpdateLastLogin and BumpTokensValidAfter
unfoldable pub update_password : Database → Text → Text → Database × Option Failure
update_password db username hash =
    write_users write_password (λ u. eq_text u.username username)
      (λ u. record u { password_hash = hash; must_reset_password = false }) db

unfoldable pub update_last_login : Database → Text → ℕ → Database × Option Failure
update_last_login db username now =
    write_users write_login (λ u. eq_text u.username username)
      (λ u. record u { last_login = some now }) db

unfoldable pub bump_tokens_valid_after : Database → Text → ℕ → Database × Option Failure
bump_tokens_valid_after db user_id now =
    write_users write_cutoff (λ u. eq_text u.id user_id)
      (λ u. record u { tokens_valid_after = now }) db

-- Create: the database gives the id, and its clock the cutoff (migration 021: DEFAULT now()).
unfoldable pub create_user : Database → User → Text → ℕ → Database × Result User
unfolding email_taken
create_user db u id now =
    if db.fails insert_user
    then (db, err unavailable)
    else if any_of (λ (v : User). eq_text v.username u.username) db.users
        || email_taken db u.username u.email
    then (db, err taken)
    else (
      record db {
        users =
            record u { id = id; roles = []; last_login = none; tokens_valid_after = now }
            ∷ db.users;
      },
      ok (record u { id = id }),
    )

-- Delete; the user's roles and tokens go with it (ON DELETE CASCADE).
unfoldable pub delete_user : Database → Text → Database × Option Failure
delete_user db username =
    if db.fails drop_user
    then (db, some unavailable)
    else let gone : Text → Bool =
        λ id. any_of (λ (u : User). eq_text u.username username && eq_text u.id id) db.users in
      (
        record db {
          users = keep_if (λ (u : User). not (eq_text u.username username)) db.users;
          user_roles = keep_if (λ (p : Text × Text). not (gone p.0)) db.user_roles;
          tokens = keep_if (λ (t : UserToken). not (gone t.user_id)) db.tokens;
        },
        none,
      )

-- Some id of the list names no role.
unfoldable pub dangling : Database → List Text → Bool
dangling db ids = any_of (λ id. not (any_of (λ (r : Role). eq_text r.id id) db.roles)) ids

-- The rows that a transaction's inserts add.
unfoldable pub assigned : Text → List Text → List (Text × Text) → List (Text × Text)
assigned user_id [] rows = rows
assigned user_id (id ∷ ids) rows =
    let rest = assigned user_id ids rows in
    if any_of (λ (p : Text × Text). eq_text p.0 user_id && eq_text p.1 id) rest
    then rest
    else (user_id, id) ∷ rest

-- SetUserRoles: one transaction, rolled back by a failed statement or a broken reference.
unfoldable pub replace_user_roles : Database → Text → List Text → Database × Option Failure
unfolding dangling assigned
replace_user_roles db user_id ids =
    if db.fails write_roles
      || dangling db ids
      || (not (any_of (λ (u : User). eq_text u.id user_id) db.users)
          && any_of (λ (i : Text). true) ids)
    then (db, some unavailable)
    else (
      record db {
        user_roles =
            assigned user_id ids
              (keep_if (λ (p : Text × Text). not (eq_text p.0 user_id)) db.user_roles);
      },
      none,
    )

-- GetByHash, Create, Delete and TouchLastUsed of user_token_repo.go
unfoldable pub get_token_by_hash : Database → Text → Result UserToken
unfolding find_row
get_token_by_hash db hash =
    if db.fails read_token
    then err unavailable
    else elim (find_row (λ (t : UserToken). eq_text t.token_hash hash) db.tokens) [
      | none ↦ err missing
      | some t ↦ ok t
    ]

unfoldable pub create_token : Database → UserToken → Text → Database × Result UserToken
create_token db t id =
    if db.fails insert_token
      || any_of (λ (v : UserToken). eq_text v.token_hash t.token_hash) db.tokens
      || not (any_of (λ (u : User). eq_text u.id t.user_id) db.users)
    then (db, err unavailable)
    else let row : UserToken = record t { id = id; last_used = none } in
      (record db { tokens = row ∷ db.tokens }, ok row)

unfoldable pub delete_token : Database → Text → Database × Option Failure
delete_token db id =
    if db.fails drop_token
    then (db, some unavailable)
    else (record db { tokens = keep_if (λ (t : UserToken). not (eq_text t.id id)) db.tokens }, none)

unfoldable pub touch_last_used : Database → Text → ℕ → Database
touch_last_used db id now = if db.fails write_used then db else record db {
  tokens =
      update_rows (λ (t : UserToken). eq_text t.id id)
        (λ (t : UserToken). record t { last_used = some now }) db.tokens;
}
