-- ===== src/Selectors/Cached.antt =====
-- The cache of programs never shows: the gate is decided by the tables alone.
use nexspence_demo.Selectors.{
  get_selector, point_privilege, overwrite, evict, remove_selector, gate, evaluate,
  detach_from_privilege, attach_to_privilege, delete, update, selectors_of_user, create,
  ContentSelector, program, Tables, SelectorService, holds, compile, compiled_now, some_matches,
}
use nexspence_demo.Prelude.{
  Bool, Bool-cases, List, Option, Text, [], any_of, ap, eq_text, eq_text_sound, false,
  if◌then◌else◌, inl, inr, none, refl, some, sym, true, ◌∙◌, ◌∷◌, ◌≡◌,
}
use nexspence_demo.Prelude.Dict
use nexspence_demo.Prelude.Dict.{Dict, AllValues, AllValues-get, AllValues-put, AllValues-remove}
use nexspence_demo.Accounts.Rows.{Result, Failure, ok, err}

module _ {Ast Program : Type 0} (check : Text → Option Ast) (is_bool : Ast → Bool)
    (link : Ast → Option Program) (run : Program → Text → Text → Text → Option Bool) where
  abbrev pub Service : Type 0
  Service = SelectorService check is_bool link run

  -- Everything that can happen to a service: its own operations, and changes of the tables by others.
  pub data Ran : Service → Type 0 where
    started : (t : Tables) → Ran (record { tables = t; programs = [] })
    created :
        (s : Service) (sel : ContentSelector) (id : Text)
        → Ran s
        → Ran (create check is_bool link run s sel id).0
    updated :
        (s : Service) (sel : ContentSelector) → Ran s → Ran (update check is_bool link run s sel).0
    deleted : (s : Service) (id : Text) → Ran s → Ran (delete check is_bool link run s id).0
    attached :
        (s : Service) (name id : Text)
        → Ran s
        → Ran (attach_to_privilege check is_bool link run s name id).0
    detached :
        (s : Service) (name : Text)
        → Ran s
        → Ran (detach_from_privilege check is_bool link run s name).0
    evaluated :
        (s : Service) (user repo format path : Text)
        → Ran s
        → Ran (evaluate check is_bool link run s user repo format path).0
    changed_elsewhere : (s : Service) (t : Tables) → Ran s → Ran (record s { tables = t })

  -- The program of an entry is what its expression compiles to.
  abbrev pub IsFresh : Text × Program → Type 0
  IsFresh e = compile check is_bool link run e.0 ≡ some e.1

  -- The answer with no cache: some selector of the user compiles and holds.
  pub matches : Text → Text → Text → ContentSelector → Bool
  unfolding holds
  matches format path repo sel =
      holds check is_bool link run (compile check is_bool link run sel.expression) format path repo

  unfoldable pub decided : Result (List ContentSelector) → Text → Text → Text → Result (Bool × Bool)
  unfolding matches
  decided (err e) repo format path = err e
  decided (ok []) repo format path = ok (false, true)
  decided (ok (sel ∷ rest)) repo format path =
      ok (true, any_of (matches format path repo) (sel ∷ rest))

  unfoldable pub decision : Tables → Text → Text → Text → Text → Result (Bool × Bool)
  unfolding decided
  decision t user repo format path =
      if eq_text user []
      then ok (false, true)
      else decided (selectors_of_user t user) repo format path

  compiled_now-IsFresh :
      (s : Service) (sel : ContentSelector)
      → AllValues IsFresh s.programs
      → ((compiled_now check is_bool link run s sel).1
          ≡ compile check is_bool link run sel.expression)
        × AllValues IsFresh (compiled_now check is_bool link run s sel).0.programs
  unfolding compiled_now
  compiled_now-IsFresh s sel h = now (compile check is_bool link run sel.expression) refl
    where
      now :
          (o : Option Program)
          → compile check is_bool link run sel.expression ≡ o
          → let r : Service × Option Program = elim o [
            | none ↦ (s, none)
            | some p ↦
                (record s { programs = Dict.put sel.id (sel.expression, p) s.programs }, some p)
          ] in
            (r.1 ≡ o) × AllValues IsFresh r.0.programs
      now none e = (refl, h)
      now (some p) e = (refl, AllValues-put IsFresh sel.id (sel.expression, p) s.programs e h)

  program-IsFresh :
      (s : Service) (sel : ContentSelector)
      → AllValues IsFresh s.programs
      → ((program check is_bool link run s sel).1 ≡ compile check is_bool link run sel.expression)
        × AllValues IsFresh (program check is_bool link run s sel).0.programs
  unfolding program
  program-IsFresh s sel h = found (Dict.get sel.id s.programs) refl
    where
      hit :
          (c : Text × Program) (b : Bool)
          → Dict.get sel.id s.programs ≡ some c
          → eq_text c.0 sel.expression ≡ b
          → let r : Service × Option Program =
              if b then (s, some c.1) else compiled_now check is_bool link run s sel in
            (r.1 ≡ compile check is_bool link run sel.expression) × AllValues IsFresh r.0.programs
      hit c true e q = (
        sym (AllValues-get IsFresh sel.id c s.programs h e)
            ∙ ap (compile check is_bool link run) (eq_text_sound c.0 sel.expression q),
        h,
      )
      hit c false e q = compiled_now-IsFresh s sel h

      found :
          (o : Option (Text × Program))
          → Dict.get sel.id s.programs ≡ o
          → let r : Service × Option Program = elim o [
            | none ↦ compiled_now check is_bool link run s sel
            | some c ↦
                if eq_text c.0 sel.expression
                then (s, some c.1)
                else compiled_now check is_bool link run s sel
          ] in
            (r.1 ≡ compile check is_bool link run sel.expression) × AllValues IsFresh r.0.programs
      found none e = compiled_now-IsFresh s sel h
      found (some c) e = hit c (eq_text c.0 sel.expression) e refl

  some_matches-IsFresh :
      (s : Service) (sels : List ContentSelector) (format path repo : Text)
      → AllValues IsFresh s.programs
      → ((some_matches check is_bool link run s sels format path repo).1
          ≡ any_of (matches format path repo) sels)
        × AllValues IsFresh (some_matches check is_bool link run s sels format path repo).0.programs
  unfolding some_matches matches
  some_matches-IsFresh s [] format path repo h = (refl, h)
  some_matches-IsFresh s (sel ∷ sels) format path repo h =
      step (holds check is_bool link run first.1 format path repo)
        (sym
          (ap (λ o. holds check is_bool link run o format path repo) (program-IsFresh s sel h).0))
        (some_matches-IsFresh first.0 sels format path repo (program-IsFresh s sel h).1)
    where
      first : Service × Option Program
      first = program check is_bool link run s sel

      step :
          (b : Bool)
          → matches format path repo sel ≡ b
          → ((some_matches check is_bool link run first.0 sels format path repo).1
              ≡ any_of (matches format path repo) sels)
            × AllValues IsFresh
                (some_matches check is_bool link run first.0 sels format path repo).0.programs
          → let r : Service × Bool = elim b [
            | true ↦ (first.0, true)
            | false ↦ some_matches check is_bool link run first.0 sels format path repo
          ] in
            (r.1 ≡ any_of (matches format path repo) (sel ∷ sels)) × AllValues IsFresh r.0.programs
      step true q ih = (rw q refl, (program-IsFresh s sel h).1)
      step false q ih = (rw q ih.0, ih.1)

  gate-IsFresh :
      (s : Service) (r : Result (List ContentSelector)) (repo format path : Text)
      → AllValues IsFresh s.programs
      → ((gate check is_bool link run s r repo format path).1 ≡ decided r repo format path)
        × AllValues IsFresh (gate check is_bool link run s r repo format path).0.programs
  unfolding gate decided
  gate-IsFresh s (err e) repo format path h = (refl, h)
  gate-IsFresh s (ok []) repo format path h = (refl, h)
  gate-IsFresh s (ok (sel ∷ rest)) repo format path h =
      let (same, kept) = some_matches-IsFresh s (sel ∷ rest) format path repo h in
      (ap (λ b. ok (true, b)) same, kept)

  evaluate-IsFresh :
      (s : Service) (user repo format path : Text)
      → AllValues IsFresh s.programs
      → ((evaluate check is_bool link run s user repo format path).1
          ≡ decision s.tables user repo format path)
        × AllValues IsFresh (evaluate check is_bool link run s user repo format path).0.programs
  unfolding evaluate decision
  evaluate-IsFresh s user repo format path h = elim (Bool-cases (eq_text user [])) [
    | inl t ↦ rw t (refl, h)
    | inr f ↦ rw f (gate-IsFresh s (selectors_of_user s.tables user) repo format path h)
  ]

  evict-IsFresh :
      (s : Service) (id : Text) (r : Tables × Option Failure)
      → AllValues IsFresh s.programs
      → AllValues IsFresh (evict check is_bool link run s id r).0.programs
  unfolding evict
  evict-IsFresh s id (t, some e) h = h
  evict-IsFresh s id (t, none) h = AllValues-remove IsFresh id s.programs h

  -- A step's result keeps the cache fresh.
  abbrev KeepsFresh : Service × Option Failure → Type 0
  KeepsFresh r = AllValues IsFresh r.0.programs

  either-IsFresh :
      (b : Bool) (x y : Service × Option Failure)
      → KeepsFresh x
      → KeepsFresh y
      → KeepsFresh (if b then x else y)
  either-IsFresh true x y h k = h
  either-IsFresh false x y h k = k

  attach-IsFresh :
      (s : Service) (name id : Text) (o : Result ContentSelector)
      → AllValues IsFresh s.programs
      → KeepsFresh (elim o [
        | err e ↦ (s, some e)
        | ok sel ↦
            let r = point_privilege s.tables name (some id) in (record s { tables = r.0 }, r.1)
      ])
  attach-IsFresh s name id (err e) h = h
  attach-IsFresh s name id (ok sel) h = h

  Ran-IsFresh : (s : Service) → Ran s → AllValues IsFresh s.programs
  unfolding create update delete attach_to_privilege detach_from_privilege
  Ran-IsFresh _ (started t) = tt
  Ran-IsFresh _ (created s sel id r) = either-IsFresh _ _ _ (Ran-IsFresh s r) (Ran-IsFresh s r)
  Ran-IsFresh _ (updated s sel r) =
      either-IsFresh _ _ _ (Ran-IsFresh s r)
        (evict-IsFresh s sel.id (overwrite s.tables sel) (Ran-IsFresh s r))
  Ran-IsFresh _ (deleted s id r) =
      evict-IsFresh s id (remove_selector s.tables id) (Ran-IsFresh s r)
  Ran-IsFresh _ (attached s name id r) =
      attach-IsFresh s name id (get_selector s.tables id) (Ran-IsFresh s r)
  Ran-IsFresh _ (detached s name r) = Ran-IsFresh s r
  Ran-IsFresh _ (evaluated s user repo format path r) =
      (evaluate-IsFresh s user repo format path (Ran-IsFresh s r)).1
  Ran-IsFresh _ (changed_elsewhere s t r) = Ran-IsFresh s r

  -- However a service and the others that share its tables have run, Evaluate answers what the tables
  -- say: nobody is gated without a selector of his own, and otherwise a request is allowed exactly
  -- when some selector of the user compiles and holds for it. The cached programs change nothing.
  pub evaluate-decision :
      (s : Service) (user repo format path : Text)
      → Ran s
      → (evaluate check is_bool link run s user repo format path).1
        ≡ decision s.tables user repo format path
  evaluate-decision s user repo format path r =
      (evaluate-IsFresh s user repo format path (Ran-IsFresh s r)).0
