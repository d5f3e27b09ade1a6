-- ===== src/Api/Access/Scoped.antt =====
-- API tokens with scopes, at both checkpoints.
use nexspence_demo.Api.Access.{
  scope_refusal, abort, method_to_action, Session, Request, rbac_middleware,
}
use nexspence_demo.Api.Identity.{
  passed, scope_refused, aborted, method_to_action, Session, need, rank, enforce_token_scopes,
  scopes_allow,
}
use nexspence_demo.Accounts.Libraries.{Libraries}
use nexspence_demo.Prelude.{
  Bool, Bool-cases, List, Option, Text, [], any_of, arith, codes, eq_text, eq_text_sound, false,
  if◌then◌else◌, inl, inr, leb, refl, trim_space, true, ◌∷◌, ◌≡◌, ◌⊎◌,
}
use nexspence_demo.Domain.{Repository}
use nexspence_demo.Rbac.Service.{RbacService}

-- The scopes that let a token use a method: PUT, POST and PATCH write, DELETE deletes, and all others
-- read.
abbrev pub reaching : Text → List Text
reaching method =
    if any_of (eq_text method) (codes "PUT" ∷ codes "POST" ∷ codes "PATCH" ∷ [])
    then codes "write" ∷ codes "delete" ∷ []
    else if eq_text method (codes "DELETE")
    then codes "delete" ∷ []
    else codes "read" ∷ codes "write" ∷ codes "delete" ∷ []

-- Some of the scopes, trimmed and in lower case, is one of those.
abbrev pub covers : Libraries → Text → List Text → Bool
covers l method scopes =
    any_of (λ sc. any_of (eq_text (l.lower (trim_space sc))) (reaching method)) scopes

-- A name is one of the three scopes, or none of them.
data Known (name : Text) : Type 0 where
  is_read : name ≡ codes "read" → Known name
  is_write : name ≡ codes "write" → Known name
  is_delete : name ≡ codes "delete" → Known name
  other_name :
      eq_text name (codes "read") ≡ false
      → eq_text name (codes "write") ≡ false
      → eq_text name (codes "delete") ≡ false
      → Known name

known : (name : Text) → Known name
known name = elim (Bool-cases (eq_text name (codes "read"))) [
  | inl t ↦ is_read (eq_text_sound name (codes "read") t)
  | inr r ↦ elim (Bool-cases (eq_text name (codes "write"))) [
    | inl t ↦ is_write (eq_text_sound name (codes "write") t)
    | inr w ↦ elim (Bool-cases (eq_text name (codes "delete"))) [
      | inl t ↦ is_delete (eq_text_sound name (codes "delete") t)
      | inr d ↦ other_name r w d
    ]
  ]
]

-- The ranks, action by action
for_write :
    (name : Text)
    → leb (need (codes "write")) (rank name)
      ≡ any_of (eq_text name) (codes "write" ∷ codes "delete" ∷ [])
unfolding need rank eq_text
for_write name = elim (known name) [
  | is_read e ↦ rw e refl
  | is_write e ↦ rw e refl
  | is_delete e ↦ rw e refl
  | other_name r w d ↦ rw (r, w, d) refl
]

for_delete :
    (name : Text)
    → leb (need (codes "delete")) (rank name) ≡ any_of (eq_text name) (codes "delete" ∷ [])
unfolding need rank eq_text
for_delete name = elim (known name) [
  | is_read e ↦ rw e refl
  | is_write e ↦ rw e refl
  | is_delete e ↦ rw e refl
  | other_name r w d ↦ rw (r, w, d) refl
]

for_read :
    (name : Text)
    → leb (need (codes "read")) (rank name)
      ≡ any_of (eq_text name) (codes "read" ∷ codes "write" ∷ codes "delete" ∷ [])
unfolding need rank eq_text
for_read name = elim (known name) [
  | is_read e ↦ rw e refl
  | is_write e ↦ rw e refl
  | is_delete e ↦ rw e refl
  | other_name r w d ↦ rw (r, w, d) refl
]

reaches :
    (name method : Text)
    → leb (need (method_to_action method)) (rank name) ≡ any_of (eq_text name) (reaching method)
unfolding method_to_action
reaches name method = ground (arith, for_write name, for_delete name, for_read name)

scopes_allow-covers :
    (l : Libraries) (method s : Text) (scopes : List Text)
    → scopes_allow l (s ∷ scopes) (method_to_action method) ≡ covers l method (s ∷ scopes)
unfolding scopes_allow
scopes_allow-covers l method s scopes = all_same (s ∷ scopes)
  where
    all_same :
        (list : List Text)
        → any_of (λ sc. leb (need (method_to_action method)) (rank (l.lower (trim_space sc)))) list
          ≡ covers l method list
    all_same [] = refl
    all_same (sc ∷ list) = ground (arith, reaches (l.lower (trim_space sc)) method, all_same list)

-- A token that has scopes passes the management API's checkpoint exactly if one of them covers the
-- request's method; if none does, it is refused there, and at the artifact routes too, whoever its owner
-- is and whatever the owner may do. A scope counts in any case and with blanks around it.
pub scopes-enforced :
    (l : Libraries) (rbac : RbacService) (get : Text → Option Repository) (r : Request)
    (session : Session) (s : Text) (scopes : List Text)
    → session.token_scopes ≡ s ∷ scopes
    → (enforce_token_scopes l r.method session
        ≡ (if covers l r.method (s ∷ scopes) then passed session else aborted scope_refused))
      × ((covers l r.method (s ∷ scopes) ≡ true)
          ⊎ (rbac_middleware l rbac get r session ≡ abort scope_refusal))
unfolding enforce_token_scopes rbac_middleware
scopes-enforced l rbac get r session s scopes e = (
  rw (e, scopes_allow-covers l r.method s scopes) refl,
  decided (covers l r.method (s ∷ scopes)) refl,
)
  where
    decided :
        (b : Bool)
        → covers l r.method (s ∷ scopes) ≡ b
        → (covers l r.method (s ∷ scopes) ≡ true)
          ⊎ (rbac_middleware l rbac get r session ≡ abort scope_refusal)
    decided true q = inl q
    decided false q = inr (rw (e, scopes_allow-covers l r.method s scopes, q) refl)
