-- ===== src/Rbac/Service/Listing.antt =====
-- The repository list shows every repository that its user can read from.
use nexspence_demo.Prelude.{
  All, Among, Among-keep_if, Bool, Bool-cases, List, Option-cases, Text, [], arith, codes, false,
  inl, inr, some, subst, true, ℕ, ◌||◌, ◌∷◌, ◌≡◌,
}
use nexspence_demo.Domain.{Repository}
use nexspence_demo.Rbac.Selector.Known.{IsKnown, eval_cel_repo_only-eval_cel}
use nexspence_demo.Rbac.Service.{
  Privilege, RbacService, is_admin, loaded, anonymous_allowed, match_privileges,
  match_privileges_repo_only, can_access_repo, filter_repos, check_path,
}

match_repo_only-match :
    (privs : List Privilege) (r p : Text)
    → All (λ (v : Privilege). IsKnown v.expression) privs
    → match_privileges privs r p (codes "read") ≡ true
    → match_privileges_repo_only privs r ≡ true
unfolding match_privileges match_privileges_repo_only
match_repo_only-match [] r p k h = cc
match_repo_only-match (v ∷ privs) r p k h =
    ground (
      arith,
      eval_cel_repo_only-eval_cel v.expression r p,
      match_repo_only-match privs r p k.1,
      k.0,
    )

loaded-some :
    (s : RbacService) (c : ℕ) (u : Text) (privs : List Privilege)
    → s.user_privileges (c ∷ u) ≡ some privs
    → loaded s (c ∷ u) ≡ privs
unfolding loaded
loaded-some s c u privs e = ground arith

visible : RbacService → Text → Repository → Bool
visible s user_id repo =
    anonymous_allowed s repo.allow_anonymous
    || match_privileges_repo_only (loaded s user_id) repo.name

visible-can_access :
    (s : RbacService) (user_id : Text) (roles : List Text) (repo : Repository) (path : Text)
    → All (λ (v : Privilege). IsKnown v.expression) (loaded s user_id)
    → is_admin roles ≡ false
    → can_access_repo s user_id roles repo path (codes "read") ≡ some true
    → visible s user_id repo ≡ true
unfolding visible can_access_repo loaded
visible-can_access s [] roles repo path k a h = ground arith
visible-can_access s (c ∷ u) roles repo path k a h =
    elim (Option-cases (s.user_privileges (c ∷ u))) [
      | inl e ↦ ground arith
      | inr (privs, f) ↦
          let same : loaded s (c ∷ u) ≡ privs = loaded-some s c u privs f in
          let known : All (λ (v : Privilege). IsKnown v.expression) privs =
            subst (All (λ (v : Privilege). IsKnown v.expression)) same k in
          ground
            (arith, same, f, match_repo_only-match privs repo.name (check_path repo path) known)
    ]

-- A repository of the list that the caller may read at some path is in the filtered list, where
-- the caller's expressions have a known first clause.
pub filter_repos-can_access_repo :
    (s : RbacService) (user_id : Text) (roles : List Text) (repo : Repository) (path : Text)
    (repos : List Repository)
    → All (λ (v : Privilege). IsKnown v.expression) (loaded s user_id)
    → Among repo repos
    → can_access_repo s user_id roles repo path (codes "read") ≡ some true
    → Among repo (filter_repos s user_id roles repos)
unfolding filter_repos visible
filter_repos-can_access_repo s user_id roles repo path repos k m h =
    elim (Bool-cases (is_admin roles)) [
      | inl admin ↦ rw admin m
      | inr user ↦ rw user (
          Among-keep_if (visible s user_id) repo repos m
            (visible-can_access s user_id roles repo path k user h))
    ]
