-- ===== src/Formats/Store.antt =====
-- internal/formats/base/store.go: where a repository's bytes go, its quotas, and the deletion of an
-- artifact, over the statements of internal/repository/postgres (asset_repo.go, blobstore_repo.go) and
-- DefaultBlobStore of internal/repository/blobstore_default.go.
pub mod Members
pub mod Quota
pub mod Deletion
pub mod Headroom
use nexspence_demo.Prelude.{
  Bool, List, Option, Text, [], any_of, codes, eq_text, false, if◌then◌else◌, keep_if, ltb, map,
  max, none, not, some, trim_space, ℕ, ◌&&◌, ◌+◌, ◌^◌, ◌∷◌,
}
use nexspence_demo.Prelude.Dict
use nexspence_demo.Prelude.Dict.{Dict}
use nexspence_demo.Domain.{
  other, text, items, Item, texts, Asset, BlobStore, Repository, config_text, config_value,
}
use nexspence_demo.Storage.Registry.{MemberInfo, pick_member}
use nexspence_demo.Accounts.Rows.{find_row, update_rows}

pub data Query : Type 0 where
  read_store : Query
  list_stores : Query
  read_asset : Query
  count_key : Query
  sum_size : Query
  drop_asset : Query
  write_used : Query
  drop_object : Query

-- ErrNotFound, ErrQuotaExceeded (and ErrNoSpace), ErrSizeMismatch and every other error.
pub data StoreError : Type 0 where
  not_found : StoreError
  quota_exceeded : StoreError
  size_mismatch : StoreError
  other_error : StoreError

pub data Outcome (A : Type 0) : Type 0 where
  got : A → Outcome A
  error : StoreError → Outcome A

-- The tables, the objects that the physical stores hold as store and key (the global default store is
-- the empty id), for which ids the registry makes a store, its counters, and what fails now.
pub record World : Type 0 where
  pub stores : List BlobStore
  pub assets : List Asset
  pub objects : List (Text × Text)
  pub registered : Text → Bool
  pub counters : Dict ℕ
  pub fails : Query → Bool

unfoldable pub http_status_for_error : StoreError → ℕ
http_status_for_error quota_exceeded = 507
http_status_for_error size_mismatch = 400
http_status_for_error not_found = 500
http_status_for_error other_error = 500

-- Get by name and GetByID of the blob stores
unfoldable pub store_where : World → (BlobStore → Bool) → Outcome BlobStore
unfolding find_row
store_where w p =
    if w.fails read_store
    then error other_error
    else elim (find_row p w.stores) [ none ↦ error not_found | some bs ↦ got bs ]

unfoldable pub store_by_id : World → Text → Outcome BlobStore
unfolding store_where
store_by_id w id = store_where w (λ bs. eq_text bs.id id)

-- The only store, if there is just one.
unfoldable pub only_store : List BlobStore → Outcome BlobStore
only_store [] = error other_error
only_store (bs ∷ []) = got bs
only_store (bs ∷ bt ∷ rest) = error other_error

-- DefaultBlobStore after the lookup of the store named "default".
unfoldable pub default_after : World → Outcome BlobStore → Outcome BlobStore
unfolding only_store
default_after w (got bs) = got bs
default_after w (error quota_exceeded) = error other_error
default_after w (error size_mismatch) = error other_error
default_after w (error other_error) = error other_error
default_after w (error not_found) =
    if w.fails list_stores then error other_error else only_store w.stores

unfoldable pub default_blob_store : World → Outcome BlobStore
unfolding default_after store_where
default_blob_store w = default_after w (store_where w (λ bs. eq_text bs.name (codes "default")))

-- strings.TrimSpace(*repo.BlobStoreID), empty for nil
unfoldable pub store_ref : Repository → Text
store_ref repo = elim repo.blob_store_id [ none ↦ [] | some id ↦ trim_space id ]

unfoldable pub resolve_blob_store_obj : World → Repository → Outcome BlobStore
unfolding store_ref store_by_id
resolve_blob_store_obj w repo =
    if eq_text (store_ref repo) [] then default_blob_store w else store_by_id w (store_ref repo)

-- The []string or the strings of the []interface{} under member_ids.
unfoldable pub item_texts : List Item → List Text
item_texts [] = []
item_texts (text t ∷ rest) = t ∷ item_texts rest
item_texts (other ∷ rest) = item_texts rest

unfoldable pub group_member_ids : BlobStore → List Text
unfolding item_texts config_value
group_member_ids bs = elim (config_value bs.config (codes "member_ids")) [
  | none ↦ []
  | some v ↦ elim v [ texts ts ↦ ts | items is ↦ item_texts is | _ ↦ [] ]
]

unfoldable pub group_fill_policy : BlobStore → Text
unfolding config_text
group_fill_policy bs =
    let p = config_text bs.config (codes "fill_policy") in
    if eq_text p [] then codes "round_robin" else p

-- The members whose rows can be read, in the order of the ids.
unfoldable pub group_members : World → List Text → List BlobStore
unfolding store_by_id
group_members w [] = []
group_members w (id ∷ ids) = elim (store_by_id w id) [
  | error e ↦ group_members w ids
  | got bs ↦ bs ∷ group_members w ids
]

unfoldable pub member_info : BlobStore → MemberInfo
member_info bs = record { id = bs.id; quota_bytes = bs.quota_bytes; used_bytes = bs.used_bytes }

-- memberMap[memberID]; the last row of an id counts, and every row of an id is the same
unfoldable pub member_named : List BlobStore → Text → Option BlobStore
unfolding find_row
member_named members id = find_row (λ (bs : BlobStore). eq_text bs.id id) members

-- The member that PickMember names, "" for none; it names only members, so the lookup finds it.
unfoldable pub picked : List BlobStore → Text → Outcome BlobStore
unfolding member_named
picked members [] = error quota_exceeded
picked members (c ∷ id) = elim (member_named members (c ∷ id)) [
  | none ↦ error other_error
  | some bs ↦ got bs
]

-- resolveBlobStoreRef on a group with some readable members
unfoldable pub pick_store : World → BlobStore → List BlobStore → Outcome BlobStore
unfolding picked group_fill_policy member_info
pick_store w bs [] = error other_error
pick_store w bs (m ∷ members) =
    picked (m ∷ members)
      (pick_member w.counters bs.id (group_fill_policy bs) (map member_info (m ∷ members)))

unfoldable pub is_group : BlobStore → Bool
is_group bs = eq_text bs.kind (codes "group")

unfoldable pub physical_of : World → Outcome BlobStore → Outcome BlobStore
unfolding pick_store group_members group_member_ids is_group
physical_of w (error e) = error e
physical_of w (got bs) =
    if is_group bs then pick_store w bs (group_members w (group_member_ids bs)) else got bs

-- resolveBlobStoreRef: the row whose id and name it returns, where the registry is configured
unfoldable pub resolve_blob_store_ref : World → Repository → Outcome BlobStore
unfolding physical_of
resolve_blob_store_ref w repo = physical_of w (resolve_blob_store_obj w repo)

-- SumSizeByRepo: one size per blob key, the largest.
unfoldable pub largest : Text → List Asset → ℕ
largest key [] = 0
largest key (a ∷ assets) =
    let rest = largest key assets in if eq_text a.blob_key key then max a.size_bytes rest else rest

unfoldable pub sum_keys : List Asset → List Asset → ℕ
unfolding largest
sum_keys all [] = 0
sum_keys all (a ∷ assets) =
    let rest = sum_keys all assets in
    if any_of (λ (b : Asset). eq_text b.blob_key a.blob_key) assets
    then rest
    else largest a.blob_key all + rest

unfoldable pub sum_size_by_repo : World → Text → Outcome ℕ
unfolding sum_keys
sum_size_by_repo w repo =
    if w.fails sum_size
    then error other_error
    else let rows = keep_if (λ (a : Asset). eq_text a.repository repo) w.assets in
      got (sum_keys rows rows)

-- used + size > quota on int64: a sum of 2 ^ 63 and more is negative, which no quota is below
unfoldable pub exceeds : Option ℕ → ℕ → ℕ → Bool
exceeds none used size = false
exceeds (some quota) used size = ltb (used + size) (2 ^ 63) && ltb quota (used + size)

unfoldable pub check_repo_quota : World → Repository → ℕ → Option StoreError
unfolding exceeds sum_size_by_repo
check_repo_quota w repo size = elim repo.quota_bytes [
  | none ↦ none
  | some quota ↦ elim (sum_size_by_repo w repo.name) [
    | error e ↦ some other_error
    | got used ↦ if exceeds (some quota) used size then some quota_exceeded else none
  ]
]

unfoldable pub check_on : World → Repository → ℕ → Outcome BlobStore → Option StoreError
unfolding check_repo_quota exceeds is_group
check_on w repo size (error e) = some e
check_on w repo size (got bs) =
    if not (is_group bs) && exceeds bs.quota_bytes bs.used_bytes size
    then some quota_exceeded
    else check_repo_quota w repo size

unfoldable pub check_quota : World → Repository → ℕ → Option StoreError
unfolding check_on
check_quota w repo size = check_on w repo size (resolve_blob_store_obj w repo)
