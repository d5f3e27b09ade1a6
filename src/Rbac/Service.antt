-- ===== src/Rbac/Service.antt =====
-- RBACService of internal/service/rbac_service.go: the access decision and the listing filters.
pub mod Anonymous
pub mod Listing
pub mod Docker
use nexspence_demo.Prelude.{
  Bool, List, Option, Text, [], any_of, codes, eq_text, false, if◌then◌else◌, keep_if, none, not,
  some, true, ◌&&◌, ◌++◌, ◌||◌, ◌∷◌,
}
use nexspence_demo.Prelude.Dict
use nexspence_demo.Prelude.Dict.{Dict}
use nexspence_demo.Domain.{Repository, Component, Asset, DockerBrowseRow, is_oci_registry}
use nexspence_demo.Rbac.Selector.{eval_cel, eval_cel_repo_only}
use nexspence_demo.Rbac.Path.{asset_sample_path}

-- repository.PrivilegeWithSelector
pub record Privilege : Type 0 where
  pub actions : List Text
  pub expression : Text

unfoldable pub is_admin : List Text → Bool
is_admin roles = any_of (λ r. eq_text r (codes "nx-admin")) roles

unfoldable pub is_read_action : Text → Bool
is_read_action action = eq_text action (codes "read") || eq_text action (codes "browse")

unfoldable pub action_allowed : List Text → Text → Bool
action_allowed [] action = true
action_allowed (a ∷ r) action = any_of (λ x. eq_text x action) (a ∷ r)

unfoldable pub match_privileges : List Privilege → Text → Text → Text → Bool
match_privileges [] repo_name path action = false
match_privileges (p ∷ privs) repo_name path action =
    (action_allowed p.actions action && eval_cel p.expression repo_name path)
    || match_privileges privs repo_name path action

unfoldable pub match_privileges_repo_only : List Privilege → Text → Bool
match_privileges_repo_only [] repo_name = false
match_privileges_repo_only (p ∷ privs) repo_name =
    (action_allowed p.actions (codes "read") && eval_cel_repo_only p.expression repo_name)
    || match_privileges_repo_only privs repo_name

-- RBACService: the instance-wide switch, and the privileges that the database holds for a user
-- (GetUserPrivilegesWithSelectors), where `none` is a failed query.
pub record RbacService : Type 0 where
  pub anonymous_enabled : Bool
  pub user_privileges : Text → Option (List Privilege)

unfoldable pub anonymous_allowed : RbacService → Bool → Bool
anonymous_allowed s repo_allows = s.anonymous_enabled && repo_allows

-- What the filters load: nothing for an anonymous caller or after a failed query.
unfoldable pub loaded : RbacService → Text → List Privilege
loaded s [] = []
loaded s (c ∷ u) = elim (s.user_privileges (c ∷ u)) [ none ↦ [] | some privs ↦ privs ]

-- The path that CanAccessRepo checks.
unfoldable pub check_path : Repository → Text → Text
check_path repo path = if is_oci_registry repo.format then asset_sample_path path else path

-- CanAccessRepo below the admin and anonymous branches; `none` is an error.
unfoldable pub can_access_user : RbacService → Text → Repository → Text → Text → Option Bool
can_access_user s [] repo path action = some false
can_access_user s (c ∷ u) repo path action = elim (s.user_privileges (c ∷ u)) [
  | none ↦ none
  | some privs ↦ some (match_privileges privs repo.name (check_path repo path) action)
]

unfoldable pub can_access_repo :
    RbacService → Text → List Text → Repository → Text → Text → Option Bool
unfolding can_access_user
can_access_repo s user_id roles repo path action =
    if is_admin roles
    then some true
    else if anonymous_allowed s repo.allow_anonymous && is_read_action action
    then some true
    else can_access_user s user_id repo path action

unfoldable pub filter_repos : RbacService → Text → List Text → List Repository → List Repository
filter_repos s user_id roles repos =
    if is_admin roles
    then repos
    else keep_if
        (λ repo.
          anonymous_allowed s repo.allow_anonymous
          || match_privileges_repo_only (loaded s user_id) repo.name)
        repos

unfoldable pub filter_paths : RbacService → Text → List Text → Text → Bool → List Text → List Text
filter_paths s user_id roles repo_name allow_anonymous paths =
    if is_admin roles || anonymous_allowed s allow_anonymous
    then paths
    else keep_if (λ p. match_privileges (loaded s user_id) repo_name p (codes "browse")) paths

-- FilterOCIImageNames for a named user
unfoldable pub image_names_of : RbacService → Text → Repository → List Text → List Text
image_names_of s [] repo names = []
image_names_of s (c ∷ u) repo names = elim (s.user_privileges (c ∷ u)) [
  | none ↦ []
  | some privs ↦
      keep_if
        (λ n. match_privileges privs repo.name (codes "/" ++ (n ++ codes "/")) (codes "browse"))
        names
]

unfoldable pub filter_oci_image_names :
    RbacService → Text → List Text → Repository → List Text → List Text
unfolding image_names_of
filter_oci_image_names s user_id roles repo names =
    if is_admin roles || anonymous_allowed s repo.allow_anonymous
    then names
    else image_names_of s user_id repo names

-- allowAnonByRepo[name]; a missing repository reads as false
unfoldable pub allows_anon : Dict Bool → Text → Bool
allows_anon m name = elim (Dict.get name m) [ none ↦ false | some b ↦ b ]

unfoldable pub is_empty : Text → Bool
is_empty [] = true
is_empty (c ∷ s) = false

unfoldable pub filter_components :
    RbacService → Text → List Text → List Component → Dict Bool → List Component
filter_components s user_id roles items allow_anon =
    if is_admin roles
    then items
    else keep_if
        (λ comp.
          anonymous_allowed s (allows_anon allow_anon comp.repository)
          || (not (is_empty user_id)
              && match_privileges (loaded s user_id) comp.repository
                  (codes "/" ++ (comp.name ++ codes "/")) (codes "browse")))
        items

unfoldable pub filter_assets : RbacService → Text → List Text → List Asset → Dict Bool → List Asset
filter_assets s user_id roles items allow_anon =
    if is_admin roles
    then items
    else keep_if
        (λ a.
          anonymous_allowed s (allows_anon allow_anon a.repository)
          || (not (is_empty user_id)
              && match_privileges (loaded s user_id) a.repository (asset_sample_path a.path)
                  (codes "browse")))
        items

-- byImage and order of FilterDockerRows
pub record Grouping : Type 0 where
  pub by_image : Dict (List DockerBrowseRow)
  pub order : List Text

-- One round of the grouping loop.
unfoldable pub group_row : Grouping → DockerBrowseRow → Grouping
group_row g row = elim (Dict.get row.image_name g.by_image) [
  | none ↦ record {
    by_image = Dict.put row.image_name (row ∷ []) g.by_image;
    order = g.order ++ (row.image_name ∷ []);
  }
  | some rows ↦ record g { by_image = Dict.put row.image_name (rows ++ (row ∷ [])) g.by_image }
]

unfoldable pub group_rows : Grouping → List DockerBrowseRow → Grouping
unfolding group_row
group_rows g [] = g
group_rows g (row ∷ rows) = group_rows (group_row g row) rows

-- byImage[imageName]; a missing image has no rows
unfoldable pub rows_of : Dict (List DockerBrowseRow) → Text → List DockerBrowseRow
rows_of m image = elim (Dict.get image m) [ none ↦ [] | some rows ↦ rows ]

-- All rows of an image of which some row passes the test.
unfoldable pub shown_rows : (DockerBrowseRow → Bool) → List DockerBrowseRow → List DockerBrowseRow
shown_rows ok rows = if any_of ok rows then rows else []

unfoldable pub accessible_images :
    (DockerBrowseRow → Bool) → Dict (List DockerBrowseRow) → List Text → List DockerBrowseRow
accessible_images ok m [] = []
accessible_images ok m (image ∷ order) =
    shown_rows ok (rows_of m image) ++ accessible_images ok m order

unfoldable pub filter_docker_rows :
    RbacService → Text → List Text → Text → Bool → List DockerBrowseRow → List DockerBrowseRow
unfolding group_rows shown_rows rows_of accessible_images
filter_docker_rows s user_id roles repo_name allow_anonymous rows =
    if is_admin roles || anonymous_allowed s allow_anonymous
    then rows
    else let g = group_rows (record { by_image = []; order = [] }) rows in
      accessible_images
        (λ row.
          match_privileges (loaded s user_id) repo_name (asset_sample_path row.sample_path)
            (codes "browse"))
        g.by_image g.order
