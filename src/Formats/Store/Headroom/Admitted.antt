-- ===== src/Formats/Store/Headroom/Admitted.antt =====
-- What quotaHeadroom admits.
use nexspence_demo.Formats.Store.Quota.{check_repo_quota-RepoRoom, exceeds-Room, RepoRoom, Room}
use nexspence_demo.Formats.Store.Headroom.{
  is_over, quota_headroom, readable, is_limited, store_quota_configured, store_for_quota,
}
use nexspence_demo.Formats.Store.{
  quota_exceeded, exceeds, is_group, check_repo_quota, store_ref, other_error, default_blob_store,
  store_where, resolve_blob_store_obj, store_by_id, World, error, read_store,
}
use nexspence_demo.Prelude.{
  Bool, Bool-cases, Text, [], eq_text, false, if◌then◌else◌, inl, inr, none, not, refl, some,
  some≢none, true, ℕ, ◌&&◌, ◌≡◌,
}
use nexspence_demo.Domain.{BlobStore, Repository}

unreadable_id :
    (w : World) (id : Text) → w.fails read_store ≡ true → store_by_id w id ≡ error other_error
unfolding store_by_id store_where
unreadable_id w id h = rw h refl

unreadable_obj :
    (w : World) (repo : Repository)
    → w.fails read_store ≡ true
    → resolve_blob_store_obj w repo ≡ error other_error
unfolding resolve_blob_store_obj default_blob_store store_where
unreadable_obj w repo h = elim (Bool-cases (eq_text (store_ref repo) [])) [
  | inl t ↦ rw (t, h) refl
  | inr f ↦ rw (f, unreadable_id w (store_ref repo) h) refl
]

unreadable_store :
    (w : World) (repo : Repository) (id : Text)
    → w.fails read_store ≡ true
    → store_for_quota w repo id ≡ none
unfolding store_for_quota readable
unreadable_store w repo id h = elim (Bool-cases (eq_text id [])) [
  | inl t ↦ rw (t, unreadable_obj w repo h) refl
  | inr f ↦ rw (f, unreadable_id w id h) refl
]

-- While the rows of the blob stores cannot be read, no quota of a store counts: a registration takes
-- no lock for it, and whether it is admitted is up to the repository's quota alone.
pub unreadable_store-unlimited :
    (w : World) (repo : Repository) (id : Text) (delta : ℕ)
    → w.fails read_store ≡ true
    → (store_quota_configured w repo id ≡ false)
      × (quota_headroom w repo id delta ≡ check_repo_quota w repo delta)
unfolding store_quota_configured is_limited quota_headroom is_over
unreadable_store-unlimited w repo id delta h = rw (unreadable_store w repo id h) (refl, refl)

-- What is admitted into a store that is not a group has room in that store, as its row stands now, and
-- in the repository, unless a sum does not fit an int64.
pub quota_headroom-Room :
    (w : World) (repo : Repository) (id : Text) (delta : ℕ) (bs : BlobStore)
    → store_for_quota w repo id ≡ some bs
    → is_group bs ≡ false
    → quota_headroom w repo id delta ≡ none
    → Room bs.quota_bytes bs.used_bytes delta × RepoRoom w repo delta repo.quota_bytes
unfolding quota_headroom is_over
quota_headroom-Room w repo id delta bs e g h =
    admitted (exceeds bs.quota_bytes bs.used_bytes delta) refl (rw (e, g) at h)
  where
    admitted :
        (x : Bool)
        → exceeds bs.quota_bytes bs.used_bytes delta ≡ x
        → (if not false && x then some quota_exceeded else check_repo_quota w repo delta) ≡ none
        → Room bs.quota_bytes bs.used_bytes delta × RepoRoom w repo delta repo.quota_bytes
    admitted true q k = absurd (some≢none k)
    admitted false q k = (
      exceeds-Room bs.quota_bytes bs.used_bytes delta q,
      check_repo_quota-RepoRoom w repo delta k,
    )
