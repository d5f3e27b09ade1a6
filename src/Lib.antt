-- ===== src/Lib.antt =====
-- Nexspence, an artifact repository server: models of its core components and their theorems.
--
-- A request for an artifact passes access control (internal/service/rbac_service.go) and reaches the
-- handler of the repository's format; a group repository (internal/formats/group) asks its members in
-- turn, subject to a routing rule (internal/service/routing_rule_service.go), and merges their
-- indexes. Bytes go to a blob store that a registry of stores resolves (internal/storage). Background
-- jobs remove stale assets (cleanup) and blobs that no asset names (garbage collection). Logins are
-- throttled, metrics are kept in a ring, events are broadcast to subscribers, and configurations lose
-- their secrets before they leave.
--
-- Files and the code they model; state is a record with the source's fields, a handler a function
-- from the state before to the state after and the answer:
--   Prelude: names passed on; tests on numbers, lists, texts (lists of code points) with the
--     functions of Go's `strings` that the code calls, maps as association lists, laws of searches.
--   Domain: internal/domain/types.go. Domain/Redact: internal/domain/redact.go.
--   Rbac/Selector, Rbac/Path, Rbac/Service: internal/service/rbac_service.go, its expression
--     evaluator, its sample paths, its decision CanAccessRepo and its listing filters.
--   Auth/LoginGuard: internal/auth/loginguard/loginguard.go and redis_store.go.
--   Accounts/Rows: internal/repository/postgres/user_repo.go, role_repo.go and user_token_repo.go as
--     statements on the rows of the tables. Accounts/Libraries: internal/auth/auth.go. Accounts/Users
--     and Accounts/Directory: internal/service/user_service.go. Accounts/Tokens:
--     internal/service/token_service.go.
--   Api/Identity, Api/Middleware: internal/api/handlers/auth.go. Api/Access:
--     internal/api/handlers/rbac_middleware.go.
--   Locks: internal/distlock/redis.go and noop.go, with Elsewhere for the steps of other nodes.
--   Selectors: internal/service/content_selector_service.go and
--     internal/repository/postgres/content_selector_repo.go.
--   Downloads: internal/service/download_counter.go and IncrementDownloads of
--     internal/repository/postgres/asset_repo.go.
--   Oci/Uploads: internal/formats/oci/uploads.go; Staged for what it relies on of a blob store.
--   Metrics/Ring: internal/metrics/ring_buffer.go.
--   Storage/Registry: internal/storage/registry.go, PickMember and Get with its cache.
--   Oci/Pagination: internal/formats/oci/pagination.go.
--   Routing: internal/service/routing_rule_service.go with the cache of compiled expressions.
--   Group: internal/formats/group/handler.go; Group/Index for merged indexes, Group/Serve for reads
--     and writes.
--   Events/Broker: internal/events/broker.go, with Step and Reachable for the order of operations.
--   Formats/Version: internal/formats/base/version.go.
--   Formats/Store: internal/formats/base/store.go with internal/repository/blobstore_default.go: quotas
--     and the store of a write; Formats/Store/Headroom for the check under the registration locks,
--     Formats/Store/Deletion for DeleteArtifact.
--   Maintenance/Gc: internal/service/gc_service.go and lock_deadline.go; Maintenance/Gc/Stores for the
--     runs over one store and all.
--   Maintenance/Cleanup: internal/service/cleanup_service.go; Maintenance/Cleanup/Locked for runs under
--     the lock and of all policies.
--   Samples: the definitions and the theorems at concrete inputs.
--
-- Numbers are natural numbers. The login throttle's durations and the round-robin counter keep their
-- 64-bit wrap-around; sizes in bytes and their sums are taken to stay below 2 ^ 63, but for the sums of
-- the quota checks. Times are counts of units, zero the zero time. A logged line is not modelled. Locks
-- in the process are not modelled: an operation is one step.
--
-- Parameters stand for what is not in the repository or is behind its interfaces: strings.ToLower and
-- EqualFold, regexp.Compile, signing and parsing of JWTs, bcrypt, sha256, the LDAP server, cel-go,
-- the members' format handlers and index mergers, the moments that the clock gives,
-- and which calls of a store fail. The backend of a cleanup run is a record of operations on an
-- abstract world; the laws Counts say what its termination needs. A member's handler is a function of
-- the request that it is given: within one request to the group, equal requests to a member are taken
-- to have equal answers. A read or a collection asks each listed member once; the sub-index fetcher may
-- ask again, and of its cache nothing is claimed.
--
-- Recursion is on lists, but for two loops on fuel: the cleanup loop, for which three passes per row
-- and four more are proved enough, and a client that follows page links, for which one request more
-- than there are entries is proved enough.
--
-- Not modelled: the other HTTP handlers, SQL beyond the statements that the named files run, physical
-- stores, protocol documents of the formats, external scanners and identity providers, and the parts
-- that the manifest of components lists as planned.
pub mod Accounts
pub mod Api
pub mod Auth
pub mod Domain
pub mod Downloads
pub mod Events
pub mod Formats
pub mod Group
pub mod Locks
pub mod Maintenance
pub mod Metrics
pub mod Oci
pub mod Prelude
pub mod Rbac
pub mod Routing
pub mod Samples
pub mod Selectors
pub mod Storage
