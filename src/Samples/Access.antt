-- ===== src/Samples/Access.antt =====
-- Access control, redaction and pagination on concrete inputs.
use nexspence_demo.Prelude.{
  Among, Text, [], any_of, arith, codes, eq_text, false, has_prefix, inl, keep_if, lt_text, map,
  none, refl, some, trim_space, true, ◌==◌, ◌↔◌, ◌∷◌, ◌≡◌, ◌≢◌,
}
use nexspence_demo.Domain.{BlobStore, Repository, DockerBrowseRow, str, config_value}
use nexspence_demo.Domain.Redact.{
  redacted_blob_stores, secret_key_key, redacted_repository, remote_password_key,
}
use nexspence_demo.Domain.Redact.Secrets.{redacted_blob_stores-hides, redacted_repository-hides}
use nexspence_demo.Rbac.Selector.{eval_cel, eval_cel_repo_only}
use nexspence_demo.Rbac.Selector.Printed.{repository_test}
use nexspence_demo.Rbac.Selector.Negated.{not_equal_grants}
use nexspence_demo.Rbac.Service.{
  RbacService, Privilege, is_admin, can_access_repo, filter_repos, filter_paths, filter_docker_rows,
  filter_oci_image_names, filter_components, filter_assets, anonymous_allowed,
}
use nexspence_demo.Rbac.Service.Anonymous.{anonymous_sees_nothing}
use nexspence_demo.Rbac.Service.Listing.{filter_repos-can_access_repo}
use nexspence_demo.Rbac.Service.Docker.{filter_docker_rows_iff, has_image, row_allowed}
use nexspence_demo.Oci.Pagination.Walk.{walk, walk-eq_self}

abbrev alice : Text
alice = codes "alice"

abbrev pub main_repo : Repository
main_repo = record {
  id = codes "1";
  name = codes "main";
  format = codes "raw";
  kind = codes "proxy";
  blob_store_id = none;
  online = true;
  format_config = none;
  proxy_config = some ((remote_password_key, str (codes "s3cret")) ∷ []);
  quota_bytes = none;
  routing_rule_id = none;
  allow_anonymous = true;
}

abbrev read_main : Privilege
read_main = record {
  actions = codes "read" ∷ codes "browse" ∷ [];
  expression = repository_test (codes " == ") (codes "main");
}

abbrev pub closed_service : RbacService
closed_service = record { anonymous_enabled = false; user_privileges = λ u. some (read_main ∷ []) }

abbrev image_row : DockerBrowseRow
image_row = record {
  component_id = codes "7";
  image_name = codes "web";
  version = codes "1";
  sample_path = codes "/v2/web/manifests/1";
}

redacted_repository-hides_example :
    config_value (redacted_repository main_repo).proxy_config (codes "remote_password") ≡ none
unfolding eq_text
redacted_repository-hides_example = redacted_repository-hides main_repo (codes "remote_password")

not_equal_grants_example :
    (eval_cel (repository_test (codes " != ") (codes "main")) (codes "main") [] ≡ true)
    × (codes "x" ≢ codes "main"
        → eval_cel (repository_test (codes " != ") (codes "main")) (codes "x") [] ≡ false)
not_equal_grants_example = not_equal_grants (codes "main") (codes "x") [] (omega arith)

anonymous_sees_nothing_example :
    (can_access_repo closed_service [] [] main_repo (codes "/x") (codes "read") ≡ some false)
    × (filter_repos closed_service [] [] (main_repo ∷ []) ≡ [])
    × (filter_paths closed_service [] [] (codes "main") true (codes "/x" ∷ []) ≡ [])
    × (filter_docker_rows closed_service [] [] (codes "main") true (image_row ∷ []) ≡ [])
    × (filter_oci_image_names closed_service [] [] main_repo (codes "web" ∷ []) ≡ [])
    × (filter_components closed_service [] [] [] [] ≡ [])
    × (filter_assets closed_service [] [] [] [] ≡ [])
unfolding is_admin
anonymous_sees_nothing_example =
    anonymous_sees_nothing closed_service refl [] refl main_repo (codes "/x") (codes "read")
      (main_repo ∷ []) (codes "/x" ∷ []) (image_row ∷ []) (codes "web" ∷ []) [] [] [] true

filter_repos-can_access_repo_example :
    Among main_repo (filter_repos closed_service alice [] (main_repo ∷ []))
unfolding is_admin eq_text nexspence_demo.Rbac.Service.loaded has_prefix
    nexspence_demo.Rbac.Selector.first_clause nexspence_demo.Prelude.trim_space can_access_repo
    anonymous_allowed nexspence_demo.Rbac.Service.match_privileges
    nexspence_demo.Rbac.Service.action_allowed eval_cel
filter_repos-can_access_repo_example =
    filter_repos-can_access_repo closed_service alice [] main_repo (codes "/x") (main_repo ∷ [])
      (refl, tt) (inl refl) refl

filter_docker_rows_iff_example :
    Among image_row
      (filter_docker_rows closed_service alice [] (codes "main") true (image_row ∷ []))
    ↔ (Among image_row (image_row ∷ [])
        × (any_of
              (row_allowed closed_service alice (codes "main"))
              (keep_if (has_image (codes "web")) (image_row ∷ []))
            ≡ true))
unfolding is_admin anonymous_allowed
filter_docker_rows_iff_example =
    filter_docker_rows_iff closed_service alice [] (codes "main") true (image_row ∷ []) image_row
      refl

walk-eq_self_example :
    walk 4 (codes "a" ∷ codes "b" ∷ codes "c" ∷ []) 2 [] ≡ codes "a" ∷ codes "b" ∷ codes "c" ∷ []
unfolding nexspence_demo.Prelude.Strings.lt_text
walk-eq_self_example =
    walk-eq_self (codes "a" ∷ codes "b" ∷ codes "c" ∷ []) 2 (omega arith)
      ((λ e. cc), (refl, (refl, tt)), ((λ e. cc), (refl, tt), ((λ e. cc), tt, tt)))

abbrev s3_store : BlobStore
s3_store = record {
  id = codes "1";
  name = 2 ∷ [];
  kind = codes "s3";
  config = some ((secret_key_key, str (codes "s3cret")) ∷ []);
  quota_bytes = none;
  used_bytes = 0;
}

redacted_blob_stores-hides_example :
    (map
        (λ (bs : BlobStore). config_value bs.config (codes "secret_key"))
        (redacted_blob_stores (s3_store ∷ []))
      ≡ none ∷ [])
    × (map (λ (bs : BlobStore). bs.name) (redacted_blob_stores (s3_store ∷ [])) ≡ (2 ∷ []) ∷ [])
unfolding eq_text
redacted_blob_stores-hides_example = redacted_blob_stores-hides (s3_store ∷ []) (codes "secret_key")
