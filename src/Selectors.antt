-- ===== src/Selectors.antt =====
-- internal/service/content_selector_service.go over the statements of
-- internal/repository/postgres/content_selector_repo.go: content selectors, their compiled programs
-- and the gate that they form.
pub mod Cached
use nexspence_demo.Prelude.{
  Bool, List, Option, Text, [], any_of, codes, eq_text, false, if◌then◌else◌, keep_if, none, not,
  some, true, ◌&&◌, ◌||◌, ◌∷◌,
}
use nexspence_demo.Prelude.Dict
use nexspence_demo.Prelude.Dict.{Dict}
use nexspence_demo.Accounts.Rows.{
  Failure, Result, ok, err, missing, taken, invalid, unavailable, find_row, update_rows,
}

pub record ContentSelector : Type 0 where
  pub id : Text
  pub name : Text
  pub description : Text
  pub expression : Text

-- A row of privileges: its id, name, type and content_selector_id.
pub record PrivilegeRow : Type 0 where
  pub id : Text
  pub name : Text
  pub kind : Text
  pub selector : Option Text

-- The constraint of migration 007: such a privilege keeps a selector.
unfoldable pub needs_selector : PrivilegeRow → Bool
needs_selector p = eq_text p.kind (codes "repository-content-selector")

pub data Statement : Type 0 where
  read_selector : Statement
  insert_selector : Statement
  write_selector : Statement
  drop_selector : Statement
  list_for_user : Statement
  write_privilege : Statement

-- The tables that the joins read; `fails` says which statements fail.
pub record Tables : Type 0 where
  pub selectors : List ContentSelector
  pub privileges : List PrivilegeRow
  pub role_privileges : List (Text × Text)
  pub user_roles : List (Text × Text)
  pub fails : Statement → Bool

-- The join of ListForUser.
unfoldable pub reaches : Tables → Text → ContentSelector → Bool
reaches t user_id cs =
    any_of
      (λ (p : PrivilegeRow).
        elim p.selector [ none ↦ false | some id ↦ eq_text id cs.id ]
        && any_of
            (λ (rp : Text × Text).
              eq_text rp.1 p.id
              && any_of (λ (ur : Text × Text). eq_text ur.0 user_id && eq_text ur.1 rp.0)
                  t.user_roles)
            t.role_privileges)
      t.privileges

unfoldable pub selectors_of_user : Tables → Text → Result (List ContentSelector)
unfolding reaches
selectors_of_user t [] = ok []
selectors_of_user t (c ∷ user_id) =
    if t.fails list_for_user
    then err unavailable
    else ok (keep_if (reaches t (c ∷ user_id)) t.selectors)

unfoldable pub get_selector : Tables → Text → Result ContentSelector
unfolding find_row
get_selector t id =
    if t.fails read_selector
    then err unavailable
    else elim (find_row (λ (s : ContentSelector). eq_text s.id id) t.selectors) [
      | none ↦ err missing
      | some s ↦ ok s
    ]

-- Another selector has the name already (the unique constraint).
unfoldable pub name_taken : Tables → ContentSelector → Bool
name_taken t s =
    any_of (λ (x : ContentSelector). eq_text x.name s.name && not (eq_text x.id s.id)) t.selectors

unfoldable pub insert : Tables → ContentSelector → Text → Tables × Option Failure
unfolding name_taken
insert t s id =
    let row : ContentSelector = record s { id = id } in
    if t.fails insert_selector
    then (t, some unavailable)
    else if name_taken t row
    then (t, some taken)
    else (record t { selectors = row ∷ t.selectors }, none)

unfoldable pub overwrite : Tables → ContentSelector → Tables × Option Failure
unfolding name_taken update_rows
overwrite t s =
    if t.fails write_selector
    then (t, some unavailable)
    else if not (any_of (λ (x : ContentSelector). eq_text x.id s.id) t.selectors)
    then (t, some missing)
    else if name_taken t s
    then (t, some taken)
    else (
      record t {
        selectors = update_rows (λ (x : ContentSelector). eq_text x.id s.id) (λ x. s) t.selectors;
      },
      none,
    )

-- content_selector_id = id
unfoldable pub points_at : Text → PrivilegeRow → Bool
points_at id p = elim p.selector [ none ↦ false | some j ↦ eq_text j id ]

-- The references of the privileges are set to NULL, or the statement fails on the constraint.
unfoldable pub remove_selector : Tables → Text → Tables × Option Failure
unfolding update_rows needs_selector points_at
remove_selector t id =
    if t.fails drop_selector
      || any_of (λ (p : PrivilegeRow). needs_selector p && points_at id p) t.privileges
    then (t, some unavailable)
    else (
      record t {
        selectors = keep_if (λ (x : ContentSelector). not (eq_text x.id id)) t.selectors;
        privileges =
            update_rows (points_at id) (λ (p : PrivilegeRow). record p { selector = none })
              t.privileges;
      },
      none,
    )

unfoldable pub is_null : Option Text → Bool
is_null none = true
is_null (some id) = false

-- AttachToPrivilege and DetachFromPrivilege
unfoldable pub point_privilege : Tables → Text → Option Text → Tables × Option Failure
unfolding update_rows needs_selector is_null
point_privilege t name selector =
    if t.fails write_privilege
      || (is_null selector
          && any_of (λ (p : PrivilegeRow). needs_selector p && eq_text p.name name) t.privileges)
    then (t, some unavailable)
    else if any_of (λ (p : PrivilegeRow). eq_text p.name name) t.privileges
    then (
      record t {
        privileges =
            update_rows (λ (p : PrivilegeRow). eq_text p.name name)
              (λ (p : PrivilegeRow). record p { selector = selector }) t.privileges;
      },
      none,
    )
    else (t, some missing)

-- The service, for cel-go: `check` parses and type-checks an expression, `is_bool` reads its output
-- type, `link` makes a program, and `run` gives its answer on format, path and repository, none for an
-- error or a value that is not a bool.
module _ {Ast Program : Type 0} (check : Text → Option Ast) (is_bool : Ast → Bool)
    (link : Ast → Option Program) (run : Program → Text → Text → Text → Option Bool) where
  -- ContentSelectorService: the tables behind repo, and the cache of programs by selector id.
  pub record SelectorService : Type 0 where
    pub tables : Tables
    pub programs : Dict (Text × Program)

  unfoldable pub compile : Text → Option Program
  compile expression = elim (check expression) [
    | none ↦ none
    | some ast ↦ if is_bool ast then link ast else none
  ]

  -- Whether compile gives an error.
  unfoldable pub compiles : Text → Bool
  unfolding compile
  compiles expression = elim (compile expression) [ none ↦ false | some p ↦ true ]

  unfoldable pub create :
      SelectorService → ContentSelector → Text → SelectorService × Option Failure
  unfolding compiles insert
  create s sel id =
      if eq_text sel.name [] || eq_text sel.expression [] || not (compiles sel.expression)
      then (s, some invalid)
      else let r = insert s.tables sel id in (record s { tables = r.0 }, r.1)

  -- After the repository's answer: the cached program goes when it succeeded.
  unfoldable pub evict :
      SelectorService → Text → Tables × Option Failure → SelectorService × Option Failure
  evict s id (t, some e) = (record s { tables = t }, some e)
  evict s id (t, none) = (record s { tables = t; programs = Dict.remove id s.programs }, none)

  unfoldable pub update : SelectorService → ContentSelector → SelectorService × Option Failure
  unfolding compiles evict overwrite
  update s sel =
      if eq_text sel.name [] || not (compiles sel.expression)
      then (s, some invalid)
      else evict s sel.id (overwrite s.tables sel)

  unfoldable pub delete : SelectorService → Text → SelectorService × Option Failure
  unfolding evict remove_selector
  delete s id = evict s id (remove_selector s.tables id)

  unfoldable pub attach_to_privilege :
      SelectorService → Text → Text → SelectorService × Option Failure
  unfolding get_selector point_privilege
  attach_to_privilege s privilege_name selector_id = elim (get_selector s.tables selector_id) [
    | err e ↦ (s, some e)
    | ok sel ↦
        let r = point_privilege s.tables privilege_name (some selector_id) in
        (record s { tables = r.0 }, r.1)
  ]

  unfoldable pub detach_from_privilege : SelectorService → Text → SelectorService × Option Failure
  unfolding point_privilege
  detach_from_privilege s privilege_name =
      let r = point_privilege s.tables privilege_name none in (record s { tables = r.0 }, r.1)

  -- program on a cache miss
  unfoldable pub compiled_now : SelectorService → ContentSelector → SelectorService × Option Program
  unfolding compile
  compiled_now s sel = elim (compile sel.expression) [
    | none ↦ (s, none)
    | some p ↦ (record s { programs = Dict.put sel.id (sel.expression, p) s.programs }, some p)
  ]

  unfoldable pub program : SelectorService → ContentSelector → SelectorService × Option Program
  unfolding compiled_now
  program s sel = elim (Dict.get sel.id s.programs) [
    | none ↦ compiled_now s sel
    | some c ↦ if eq_text c.0 sel.expression then (s, some c.1) else compiled_now s sel
  ]

  -- matched, ok := out.Value().(bool); ok && matched
  unfoldable pub holds : Option Program → Text → Text → Text → Bool
  holds none format path repository = false
  holds (some p) format path repository = elim (run p format path repository) [
    | none ↦ false
    | some b ↦ b
  ]

  -- The loop of Evaluate.
  unfoldable pub some_matches :
      SelectorService → List ContentSelector → Text → Text → Text → SelectorService × Bool
  unfolding program holds
  some_matches s [] format path repository = (s, false)
  some_matches s (sel ∷ rest) format path repository =
      let r = program s sel in
      elim (holds r.1 format path repository) [
        | true ↦ (r.0, true)
        | false ↦ some_matches r.0 rest format path repository
      ]

  -- Evaluate: gated and allowed, or an error.
  unfoldable pub gate :
      SelectorService
      → Result (List ContentSelector)
      → Text
      → Text
      → Text
      → SelectorService × Result (Bool × Bool)
  unfolding some_matches
  gate s (err e) repo format path = (s, err e)
  gate s (ok []) repo format path = (s, ok (false, true))
  gate s (ok (sel ∷ rest)) repo format path =
      let r = some_matches s (sel ∷ rest) format path repo in (r.0, ok (true, r.1))

  unfoldable pub evaluate :
      SelectorService → Text → Text → Text → Text → SelectorService × Result (Bool × Bool)
  unfolding gate selectors_of_user
  evaluate s user_id repo format path =
      if eq_text user_id []
      then (s, ok (false, true))
      else gate s (selectors_of_user s.tables user_id) repo format path
