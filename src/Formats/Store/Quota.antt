-- ===== src/Formats/Store/Quota.antt =====
-- The store that a write goes to, after the quotas were checked.
use nexspence_demo.Storage.Registry.Pick.{pick-Fits}
use nexspence_demo.Formats.Store.{
  group_fill_policy, is_group, resolve_blob_store_obj, quota_exceeded, physical_of,
  sum_size_by_repo, pick_member, resolve_blob_store_ref, group_member_ids, check_quota, exceeds,
  pick_store, check_repo_quota, check_on, other_error, error, got, Outcome, World, member_info,
  group_members,
}
use nexspence_demo.Prelude.{
  All, Bool, Bool-cases, List, Option, [], arith, false, if◌then◌else◌, inl, inr, length, map, none,
  not, refl, some, some≢none, subst, sym, true, ℕ, ◌&&◌, ◌+◌, ◌^◌, ◌∷◌, ◌≡◌, ◌≤◌, ◌⊎◌,
}
use nexspence_demo.Domain.{Repository, BlobStore}
use nexspence_demo.Storage.Registry.{pick, counter, pick_member}
use nexspence_demo.Formats.Store.Members.{IsRow, IsPick, group_members-IsRow, picked-IsPick}

-- `used` and `size` bytes stay within a quota, if there is one, or their sum does not fit an int64.
pub Room : Option ℕ → ℕ → ℕ → Type 0
Room none used size = Unit
Room (some quota) used size = (used + size ≤ quota) ⊎ (2 ^ 63 ≤ used + size)

-- The same for a repository, whose use is the sum over its blobs.
pub RepoRoom : World → Repository → ℕ → Option ℕ → Type 0
RepoRoom w repo size none = Unit
RepoRoom w repo size (some quota) =
    (used : ℕ) × (sum_size_by_repo w repo.name ≡ got used) × Room (some quota) used size

pub exceeds-Room :
    (quota : Option ℕ) (used size : ℕ) → exceeds quota used size ≡ false → Room quota used size
unfolding exceeds Room
exceeds-Room none used size h = tt
exceeds-Room (some q) used size h = ground arith

pub check_repo_quota-RepoRoom :
    (w : World) (repo : Repository) (size : ℕ)
    → check_repo_quota w repo size ≡ none
    → RepoRoom w repo size repo.quota_bytes
unfolding check_repo_quota RepoRoom
check_repo_quota-RepoRoom w repo size h =
    limited repo.quota_bytes (sum_size_by_repo w repo.name) refl h
  where
    limited :
        (quota : Option ℕ) (o : Outcome ℕ)
        → sum_size_by_repo w repo.name ≡ o
        → (elim quota [
          | none ↦ none
          | some q ↦ elim o [
            | error e ↦ some other_error
            | got used ↦ if exceeds (some q) used size then some quota_exceeded else none
          ]
        ])
          ≡ none
        → RepoRoom w repo size quota
    limited none o e k = tt
    limited (some q) (error x) e k = cc
    limited (some q) (got used) e k = elim (Bool-cases (exceeds (some q) used size)) [
      | inl t ↦ absurd (some≢none (rw t at k))
      | inr f ↦ (used, e, exceeds-Room (some q) used size f)
    ]

pick_store-IsPick :
    (w : World) (obj bs : BlobStore) (members : List BlobStore)
    → All (IsRow w) members
    → counter w.counters obj.id + length (map member_info members) ≤ 2 ^ 64
    → pick_store w obj members ≡ got bs
    → IsPick w members bs
unfolding pick_store pick_member
pick_store-IsPick w obj bs [] rows h e = cc
pick_store-IsPick w obj bs (m ∷ members) rows h e =
    picked-IsPick w (m ∷ members)
      (pick w.counters obj.id (group_fill_policy obj) (map member_info (m ∷ members))).0 bs rows
      (pick-Fits w.counters obj.id (group_fill_policy obj) (map member_info (m ∷ members)) h) e

-- What a passed check says of the store that is then written.
pub IsChecked : World → ℕ → BlobStore → BlobStore → Type 0
unfolding IsPick
IsChecked w size obj bs =
    ((bs ≡ obj) × Room bs.quota_bytes bs.used_bytes size)
    ⊎ IsPick w (group_members w (group_member_ids obj)) bs

checked :
    (w : World) (repo : Repository) (size : ℕ) (obj bs : BlobStore)
    → counter w.counters obj.id + length (map member_info (group_members w (group_member_ids obj)))
      ≤ 2 ^ 64
    → check_on w repo size (got obj) ≡ none
    → physical_of w (got obj) ≡ got bs
    → IsChecked w size obj bs × RepoRoom w repo size repo.quota_bytes
unfolding check_on physical_of IsChecked
checked w repo size obj bs c h e =
    by_kind (is_group obj) (exceeds obj.quota_bytes obj.used_bytes size) refl h e
  where
    by_kind :
        (g x : Bool)
        → exceeds obj.quota_bytes obj.used_bytes size ≡ x
        → (if not g && x then some quota_exceeded else check_repo_quota w repo size) ≡ none
        → (if g then pick_store w obj (group_members w (group_member_ids obj)) else got obj)
          ≡ got bs
        → IsChecked w size obj bs × RepoRoom w repo size repo.quota_bytes
    by_kind true x q k l = (
      inr (
          pick_store-IsPick w obj bs (group_members w (group_member_ids obj))
            (group_members-IsRow w (group_member_ids obj)) c l),
      check_repo_quota-RepoRoom w repo size k,
    )
    by_kind false true q k l = absurd (some≢none k)
    by_kind false false q k l =
        let same : obj ≡ bs = cc in
        (
          inl (
            sym same,
            subst (λ b. Room b.quota_bytes b.used_bytes size) same
                (exceeds-Room obj.quota_bytes obj.used_bytes size q),
          ),
          check_repo_quota-RepoRoom w repo size k,
        )

-- When the quotas allow a write and its store is then resolved, while the round-robin counter does not
-- wrap around, the repository's blobs and the new bytes together are within the repository's quota,
-- and the store either is the very one whose quota was checked, with room for the new bytes, or a
-- readable member of its group that is below its own quota. A sum that does not fit an int64 is the
-- one exception: it passes a quota as if it were within it.
pub check_quota-IsChecked :
    (w : World) (repo : Repository) (size : ℕ) (obj bs : BlobStore)
    → resolve_blob_store_obj w repo ≡ got obj
    → counter w.counters obj.id + length (map member_info (group_members w (group_member_ids obj)))
      ≤ 2 ^ 64
    → check_quota w repo size ≡ none
    → resolve_blob_store_ref w repo ≡ got bs
    → IsChecked w size obj bs × RepoRoom w repo size repo.quota_bytes
unfolding check_quota resolve_blob_store_ref
check_quota-IsChecked w repo size obj bs o c h e =
    checked w repo size obj bs c (subst (λ r. check_on w repo size r ≡ none) o h)
      (subst (λ r. physical_of w r ≡ got bs) o e)
