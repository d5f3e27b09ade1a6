-- ===== src/Rbac/Service/Anonymous.antt =====
-- The instance-wide anonymous switch.
use nexspence_demo.Prelude.{Bool, List, Text, [], any_of, false, keep_if, refl, some, ◌∷◌, ◌≡◌}
use nexspence_demo.Prelude.Dict.{Dict}
use nexspence_demo.Domain.{Repository, Component, Asset, DockerBrowseRow}
use nexspence_demo.Rbac.Service.{
  RbacService, is_admin, anonymous_allowed, loaded, is_empty, match_privileges,
  match_privileges_repo_only, can_access_repo, filter_repos, filter_paths, filter_docker_rows,
  filter_oci_image_names, filter_components, filter_assets, accessible_images, shown_rows, rows_of,
}

keep_none {ℓ} :
    {A : Type ℓ} (p : A → Bool) (xs : List A) → ((x : A) → p x ≡ false) → keep_if p xs ≡ []
keep_none p [] h = refl
keep_none p (x ∷ xs) h = rw (h x) (keep_none p xs h)

any_none {ℓ} :
    {A : Type ℓ} (p : A → Bool) (xs : List A) → ((x : A) → p x ≡ false) → any_of p xs ≡ false
any_none p [] h = refl
any_none p (x ∷ xs) h = rw (h x) (any_none p xs h)

no_images :
    (ok : DockerBrowseRow → Bool) (m : Dict (List DockerBrowseRow)) (order : List Text)
    → ((r : DockerBrowseRow) → ok r ≡ false)
    → accessible_images ok m order ≡ []
unfolding accessible_images shown_rows
no_images ok m [] h = refl
no_images ok m (i ∷ order) h = rw (any_none ok (rows_of m i) h) (no_images ok m order h)

module _ (s : RbacService) (off : s.anonymous_enabled ≡ false) (roles : List Text)
    (not_admin : is_admin roles ≡ false) where
  -- With the switch off, a caller with no user id and no admin role is refused every repository at
  -- every path for every action, whatever the repository opts into, and every listing is empty.
  pub anonymous_sees_nothing :
      (repo : Repository) (path action : Text) (repos : List Repository) (paths : List Text)
      (rows : List DockerBrowseRow) (names : List Text) (comps : List Component)
      (assets : List Asset) (anon : Dict Bool) (allow : Bool)
      → (can_access_repo s [] roles repo path action ≡ some false)
        × (filter_repos s [] roles repos ≡ [])
        × (filter_paths s [] roles repo.name allow paths ≡ [])
        × (filter_docker_rows s [] roles repo.name allow rows ≡ [])
        × (filter_oci_image_names s [] roles repo names ≡ [])
        × (filter_components s [] roles comps anon ≡ [])
        × (filter_assets s [] roles assets anon ≡ [])
  unfolding can_access_repo filter_repos filter_paths filter_docker_rows filter_oci_image_names
      filter_components filter_assets anonymous_allowed loaded is_empty match_privileges
      match_privileges_repo_only
  anonymous_sees_nothing repo path action repos paths rows names comps assets anon allow =
      rw (not_admin, off)
        (
          refl,
          keep_none _ repos (λ x. refl),
          keep_none _ paths (λ x. refl),
          no_images _ _ _ (λ x. refl),
          refl,
          keep_none _ comps (λ x. refl),
          keep_none _ assets (λ x. refl),
        )
