-- ===== src/Api/Access/Granted.antt =====
-- What each answer of RBACMiddleware says about the request.
use nexspence_demo.Api.Identity.{method_to_action, scopes_allow, Session}
use nexspence_demo.Api.Access.{
  next, docker_refusal, abort, scope_refusal, method_to_action, check_refusal, first_path, Outcome,
  outcome_in, rbac_middleware, outcome_of, deny_access, scopes_allow, Session, Request,
}
use nexspence_demo.Accounts.Libraries.{Libraries}
use nexspence_demo.Prelude.{
  Bool, Bool-cases, Option, Option-cases, Text, [], arith, false, inl, inr, none, refl, some,
  some≢none, sym, true, ◌∷◌, ◌≡◌, ◌≢◌, ◌⊎◌,
}
use nexspence_demo.Domain.{Repository}
use nexspence_demo.Rbac.Service.{RbacService, can_access_repo, is_admin, can_access_user}

module _ (l : Libraries) (rbac : RbacService) (get : Text → Option Repository) (r : Request)
    (session : Session) where
  -- The decision on the repository of the request.
  abbrev pub decision : Repository → Option Bool
  decision repo =
      can_access_repo rbac session.user_id session.roles repo (first_path r.path r.docker_path)
        (method_to_action r.method)

  -- The scopes of the session's token allow the request.
  abbrev pub in_scope : Bool
  in_scope = scopes_allow l session.token_scopes (method_to_action r.method)

  -- There is no such repository, or the decision on it is negative.
  abbrev pub IsRefused : Type 0
  IsRefused =
      (get r.repo_name ≡ none)
      ⊎ ((repo : Repository) × (get r.repo_name ≡ some repo) × (decision repo ≡ some false))

  -- Why an outcome came about.
  pub IsExplained : Outcome → Type 0
  IsExplained next =
      (in_scope ≡ true)
      × ((repo : Repository) × (get r.repo_name ≡ some repo) × (decision repo ≡ some true))
  IsExplained (abort x) =
      ((x.status ≡ 401) × (in_scope ≡ true) × (session.user_id ≡ []) × IsRefused)
      ⊎ (((x.status ≡ 403) × (in_scope ≡ true) × (session.user_id ≢ []) × IsRefused)
          ⊎ (((x.status ≡ 403) × (in_scope ≡ false))
              ⊎ ((x.status ≡ 500)
                  × (in_scope ≡ true)
                  × (is_admin session.roles ≡ false)
                  × (session.user_id ≢ [])
                  × (rbac.user_privileges session.user_id ≡ none))))

  can_access_user-none :
      (user_id : Text) (repo : Repository) (path action : Text)
      → can_access_user rbac user_id repo path action ≡ none
      → (user_id ≢ []) × (rbac.user_privileges user_id ≡ none)
  unfolding can_access_user
  can_access_user-none [] repo path action h = absurd (some≢none h)
  can_access_user-none (c ∷ u) repo path action h =
      elim (Option-cases (rbac.user_privileges (c ∷ u))) [
        | inl e ↦ ((λ q. cc), e)
        | inr (p, e) ↦ absurd (some≢none (rw (e, can_access_user) at h))
      ]

  decision-none :
      (repo : Repository)
      → decision repo ≡ none
      → (is_admin session.roles ≡ false)
        × (session.user_id ≢ [])
        × (rbac.user_privileges session.user_id ≡ none)
  unfolding can_access_repo
  decision-none repo h = elim (Bool-cases (is_admin session.roles)) [
    | inl t ↦ absurd (some≢none (rw t at h))
    | inr f ↦
        (let rest =
            can_access_user-none session.user_id repo (first_path r.path r.docker_path)
              (method_to_action r.method) (ground (arith, h, f)) in
          (f, rest.0, rest.1))
  ]

  deny-IsExplained :
      (user_id : Text)
      → user_id ≡ session.user_id
      → in_scope ≡ true
      → IsRefused
      → IsExplained (abort (deny_access l r user_id))
  unfolding deny_access docker_refusal IsExplained
  deny-IsExplained [] e s h = inl (ground arith, s, sym e, h)
  deny-IsExplained (c ∷ u) e s h = inr (inl (refl, s, (λ q. cc), h))

  decided :
      (repo : Repository) (o : Option Bool)
      → in_scope ≡ true
      → get r.repo_name ≡ some repo
      → decision repo ≡ o
      → IsExplained (outcome_of l r session.user_id o)
  unfolding outcome_of check_refusal IsExplained
  decided repo none s e h =
      let (a, u, p) = decision-none repo h in inr (inr (inr (refl, s, a, u, p)))
  decided repo (some false) s e h = deny-IsExplained session.user_id refl s (inr (repo, e, h))
  decided repo (some true) s e h = (s, (repo, e, h))

  looked_up :
      (o : Option Repository)
      → in_scope ≡ true
      → get r.repo_name ≡ o
      → IsExplained (outcome_in l rbac r session o)
  unfolding outcome_in
  looked_up none s e = deny-IsExplained session.user_id refl s (inl e)
  looked_up (some repo) s e = decided repo (decision repo) s e refl

  -- The handler of an artifact runs only when the token's scopes allow the method, the repository
  -- exists and CanAccessRepo says yes. A refusal of a caller without a user is 401 and of one with a
  -- user 403, and comes only for a missing repository or a negative decision; a token whose scopes do
  -- not allow the method gets 403; and 500 means that the privileges of a user who is no
  -- administrator could not be read.
  pub rbac_middleware-IsExplained : IsExplained (rbac_middleware l rbac get r session)
  unfolding rbac_middleware IsExplained scope_refusal
  rbac_middleware-IsExplained = elim (Bool-cases in_scope) [
    | inl t ↦ rw t (looked_up (get r.repo_name) t refl)
    | inr f ↦ rw f (inr (inr (inl (refl, f))))
  ]
