-- ===== src/Formats/Store/Headroom.antt =====
-- storeForQuota, storeQuotaConfigured and quotaHeadroom of internal/formats/base/store.go: the quota
-- checks of a registration, under its locks.
pub mod Admitted
use nexspence_demo.Formats.Store.{
  quota_exceeded, store_by_id, exceeds, resolve_blob_store_obj, check_repo_quota, is_group, World,
  Outcome, got, error, StoreError,
}
use nexspence_demo.Prelude.{
  Bool, Option, Text, [], eq_text, false, if◌then◌else◌, none, not, some, true, ℕ, ◌&&◌,
}
use nexspence_demo.Domain.{Repository, BlobStore}
use nexspence_demo.Formats.Store

unfoldable pub readable : Outcome BlobStore → Option BlobStore
readable (error e) = none
readable (got bs) = some bs

unfoldable pub store_for_quota : World → Repository → Text → Option BlobStore
unfolding readable
store_for_quota w repo id =
    if eq_text id [] then readable (resolve_blob_store_obj w repo) else readable (store_by_id w id)

-- Whether a store has a quota of its own
unfoldable pub is_limited : Option BlobStore → Bool
unfolding is_group
is_limited none = false
is_limited (some bs) = not (is_group bs) && elim bs.quota_bytes [ none ↦ false | some q ↦ true ]

unfoldable pub store_quota_configured : World → Repository → Text → Bool
unfolding store_for_quota is_limited
store_quota_configured w repo id = is_limited (store_for_quota w repo id)

unfoldable pub is_over : Option BlobStore → ℕ → Bool
unfolding is_group exceeds
is_over none delta = false
is_over (some bs) delta = not (is_group bs) && exceeds bs.quota_bytes bs.used_bytes delta

-- Called for a delta above zero only.
unfoldable pub quota_headroom : World → Repository → Text → ℕ → Option StoreError
unfolding is_over store_for_quota check_repo_quota
quota_headroom w repo id delta =
    if is_over (store_for_quota w repo id) delta
    then some quota_exceeded
    else check_repo_quota w repo delta
