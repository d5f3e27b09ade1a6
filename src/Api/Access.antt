-- ===== src/Api/Access.antt =====
-- internal/api/handlers/rbac_middleware.go: what a session may do with a repository.
pub mod Granted
pub mod Scoped
use nexspence_demo.Api.Identity.{scopes_allow, method_to_action, Session}
use nexspence_demo.Accounts.Libraries.{Libraries}
use nexspence_demo.Prelude.{
  Bool, Option, Text, [], codes, false, has_prefix, if◌then◌else◌, none, not, some, true, ℕ, ◌++◌,
  ◌||◌, ◌∷◌,
}
use nexspence_demo.Domain.{Repository}
use nexspence_demo.Rbac.Service.{RbacService, can_access_repo}

-- A request for an artifact: the method, the path of its URL, the parameters repoName, path and
-- dockerpath of the route (empty where the route has none), and what dockerTokenRealm reads.
pub record Request : Type 0 where
  pub method : Text
  pub url_path : Text
  pub repo_name : Text
  pub path : Text
  pub docker_path : Text
  pub tls : Bool
  pub forwarded_proto : Text
  pub host : Text

-- The WWW-Authenticate header of an answer.
pub data Challenge : Type 0 where
  no_challenge : Challenge
  basic_realm : Text → Challenge
  bearer_realm : Text → Text → Challenge

-- The JSON body: {"error": _}, or the OCI form with code, message and detail.
pub data Body : Type 0 where
  plain_error : Text → Body
  oci_error : Text → Text → Text → Body

pub record Refusal : Type 0 where
  pub status : ℕ
  pub challenge : Challenge
  pub body : Body

-- c.Next(), or an abort.
pub data Outcome : Type 0 where
  next : Outcome
  abort : Refusal → Outcome

unfoldable pub docker_token_realm : Libraries → Request → Text
docker_token_realm l r =
    (if r.tls || l.equal_fold r.forwarded_proto (codes "https")
      then codes "https"
      else codes "http")
    ++ (codes "://" ++ (r.host ++ codes "/v2/token"))

unfoldable pub docker_refusal : Libraries → Request → Refusal
unfolding docker_token_realm
docker_refusal l r = record {
  status = 401;
  challenge = bearer_realm (docker_token_realm l r) (codes "nexspence-registry");
  body =
      oci_error (codes "UNAUTHORIZED")
        (codes "authentication required for repository '" ++ (r.repo_name ++ codes "'"))
        (codes "this repository does not allow anonymous access");
}

-- denyAccess
unfoldable pub deny_access : Libraries → Request → Text → Refusal
unfolding docker_refusal
deny_access l r [] = if has_prefix r.url_path (codes "/v2/") then docker_refusal l r else record {
  status = 401;
  challenge = basic_realm (codes "Nexspence");
  body = plain_error (codes "authentication required");
}
deny_access l r (c ∷ user_id) = record {
  status = 403;
  challenge = no_challenge;
  body = plain_error (codes "access denied");
}

unfoldable pub scope_refusal : Refusal
scope_refusal = record {
  status = 403;
  challenge = no_challenge;
  body = plain_error (codes "token scope does not permit this action");
}

unfoldable pub check_refusal : Refusal
check_refusal = record {
  status = 500;
  challenge = no_challenge;
  body = plain_error (codes "access check failed");
}

-- path, dockerpath or "/"
unfoldable pub first_path : Text → Text → Text
first_path (c ∷ path) docker_path = c ∷ path
first_path [] (c ∷ docker_path) = c ∷ docker_path
first_path [] [] = codes "/"

-- The decision of CanAccessRepo; `none` is an error.
unfoldable pub outcome_of : Libraries → Request → Text → Option Bool → Outcome
unfolding deny_access check_refusal
outcome_of l r user_id none = abort check_refusal
outcome_of l r user_id (some false) = abort (deny_access l r user_id)
outcome_of l r user_id (some true) = next

-- repoRepo.Get: `none` where it fails or finds nothing.
unfoldable pub outcome_in :
    Libraries → RbacService → Request → Session → Option Repository → Outcome
unfolding outcome_of first_path deny_access
outcome_in l rbac r session none = abort (deny_access l r session.user_id)
outcome_in l rbac r session (some repo) = outcome_of l r session.user_id (
    can_access_repo rbac session.user_id session.roles repo (first_path r.path r.docker_path)
      (method_to_action r.method))

-- RBACMiddleware, where `get` is the repositories' Get.
unfoldable pub rbac_middleware :
    Libraries → RbacService → (Text → Option Repository) → Request → Session → Outcome
unfolding outcome_in scope_refusal
rbac_middleware l rbac get r session =
    if scopes_allow l session.token_scopes (method_to_action r.method)
    then outcome_in l rbac r session (get r.repo_name)
    else abort scope_refusal
