-- ===== src/Formats/Store/Deletion.antt =====
-- DeleteArtifact and DecrementBlobStoreUsage of internal/formats/base/store.go, without the webhook and
-- the counter of deletions.
pub mod Kept
use nexspence_demo.Formats.Store.{
  size_mismatch, quota_exceeded, not_found, other_error, count_key, got, drop_asset, read_asset,
  StoreError, Outcome, write_used, drop_object, error, store_by_id, World,
}
use nexspence_demo.Prelude.{
  Bool, Option, Text, [], codes, eq_text, false, if◌then◌else◌, keep_if, length, none, not, some,
  suc, true, zero, ℕ, ◌&&◌, ◌-◌, ◌==◌,
}
use nexspence_demo.Domain.{Asset, BlobStore}
use nexspence_demo.Accounts.Rows.{write_used, find_row, update_rows}
use nexspence_demo.Formats.Store

-- GetByPath
unfoldable pub asset_by_path : World → Text → Text → Outcome Asset
unfolding find_row
asset_by_path w repo path =
    if w.fails read_asset
    then error other_error
    else elim (find_row (λ (a : Asset). eq_text a.repository repo && eq_text a.path path)
        w.assets) [ none ↦ error not_found | some a ↦ got a ]

-- CountByBlobKey: the other rows that name the key
unfoldable pub count_by_blob_key : World → Text → Text → Outcome ℕ
count_by_blob_key w key excluded =
    if w.fails count_key
    then error other_error
    else got (
        length
          (keep_if (λ (a : Asset). eq_text a.blob_key key && not (eq_text a.id excluded)) w.assets))

-- The physical store of an asset: the empty id is the global default, which PhysicalStore falls back to.
unfoldable pub store_of : World → Asset → Text
unfolding store_by_id
store_of w a = if eq_text a.blob_store_id [] then [] else elim (store_by_id w a.blob_store_id) [
  | error e ↦ []
  | got bs ↦ if w.registered bs.id then bs.id else []
]

unfoldable pub is_object : Text → Text → Text × Text → Bool
is_object store key o = eq_text o.0 store && eq_text o.1 key

-- Delete of a physical store: an object that is not there is deleted too
unfoldable pub delete_object : World → Text → Text → World × Bool
unfolding is_object
delete_object w store key =
    if w.fails drop_object
    then (w, false)
    else (record w { objects = keep_if (λ o. not (is_object store key o)) w.objects }, true)

-- UpdateUsedBytes with a negative delta: GREATEST(0, used_bytes - n)
unfoldable pub lower_used_bytes : World → Text → ℕ → World
unfolding update_rows
lower_used_bytes w name n = if w.fails write_used then w else record w {
  stores =
      update_rows (λ (bs : BlobStore). eq_text bs.name name)
        (λ (bs : BlobStore). record bs { used_bytes = bs.used_bytes - n }) w.stores;
}

-- The name of an asset's store, "default" where it has none; `error` where it cannot be read
unfoldable pub used_name : World → Asset → Outcome Text
unfolding store_by_id
used_name w a =
    if eq_text a.blob_store_id []
    then got (codes "default")
    else elim (store_by_id w a.blob_store_id) [
      | error e ↦ error e
      | got bs ↦ got (if eq_text bs.name [] then codes "default" else bs.name)
    ]

unfoldable pub decrement_usage : World → Asset → World
unfolding used_name lower_used_bytes
decrement_usage w a =
    if a.size_bytes == 0
    then w
    else elim (used_name w a) [ error e ↦ w | got name ↦ lower_used_bytes w name a.size_bytes ]

-- What the function under the lock leaves: the world, its error, and whether the object is gone.
pub record Locked : Type 0 where
  pub world : World
  pub result : Option StoreError
  pub freed : Bool

-- The transaction that holds the advisory lock: not begun or not locked, committed, or its commit fails.
pub data LockRun : Type 0 where
  not_taken : LockRun
  committed : LockRun
  commit_failed : LockRun

-- WithBlobKeyLock on `w`, where `v` is what its function leaves: the statements of the function are on
-- other connections, so a failed commit takes nothing back.
unfoldable pub with_blob_key_lock : LockRun → World → Locked → Locked
with_blob_key_lock not_taken w v = record { world = w; result = some other_error; freed = false }
with_blob_key_lock committed w v = v
with_blob_key_lock commit_failed w v = elim v.result [
  | none ↦ record v { result = some other_error }
  | some e ↦ v
]

-- The bytes, once the row is gone: deleted only when the count was read and is 0.
unfoldable pub reclaim : World → Asset → Text → Outcome ℕ → Locked
unfolding delete_object
reclaim w a store (error e) = record { world = w; result = none; freed = false }
reclaim w a store (got (suc n)) = record { world = w; result = none; freed = false }
reclaim w a store (got zero) =
    let r = delete_object w store a.blob_key in record { world = r.0; result = none; freed = r.1 }

unfoldable pub delete_row : World → Asset → Text → Locked
unfolding reclaim count_by_blob_key
delete_row w a store =
    if w.fails drop_asset
    then record { world = w; result = some other_error; freed = false }
    else reclaim (record w { assets = keep_if (λ (x : Asset). not (eq_text x.id a.id)) w.assets }) a
        store (count_by_blob_key w a.blob_key a.id)

-- The row is still the one that was read before the lock.
unfoldable pub unchanged : Asset → Asset → Bool
unchanged cur a =
    eq_text cur.id a.id && eq_text cur.blob_key a.blob_key && cur.last_modified == a.last_modified

-- Nothing is done.
unfoldable pub left_alone : World → Option StoreError → Locked
left_alone w e = record { world = w; result = e; freed = false }

-- What the lock covers, on the row that is read again there.
unfoldable pub delete_reread : World → Asset → Text → Outcome Asset → Locked
unfolding delete_row unchanged left_alone
delete_reread w a store (error not_found) = left_alone w none
delete_reread w a store (error quota_exceeded) = left_alone w (some quota_exceeded)
delete_reread w a store (error size_mismatch) = left_alone w (some size_mismatch)
delete_reread w a store (error other_error) = left_alone w (some other_error)
delete_reread w a store (got cur) =
    if unchanged cur a then delete_row w a store else left_alone w none

-- What follows the lock: used_bytes goes down only when the object is gone.
unfoldable pub settle : Asset → Locked → World × Option StoreError
unfolding decrement_usage
settle a r = elim r.result [
  | some e ↦ (r.world, some e)
  | none ↦ (if r.freed then decrement_usage r.world a else r.world, none)
]

unfoldable pub delete_found :
    LockRun → World → World → Text → Text → Outcome Asset → World × Option StoreError
unfolding with_blob_key_lock delete_reread store_of asset_by_path settle
delete_found lock before w repo path (error not_found) = (w, none)
delete_found lock before w repo path (error quota_exceeded) = (w, some quota_exceeded)
delete_found lock before w repo path (error size_mismatch) = (w, some size_mismatch)
delete_found lock before w repo path (error other_error) = (w, some other_error)
delete_found lock before w repo path (got a) =
    settle a (
      with_blob_key_lock lock w (delete_reread w a (store_of before a) (asset_by_path w repo path)))

-- DeleteArtifact: the first read is on `before`, and what runs under the lock of the blob key on `w`,
-- to which other requests may have led meanwhile.
unfoldable pub delete_artifact : LockRun → World → World → Text → Text → World × Option StoreError
unfolding delete_found asset_by_path
delete_artifact lock before w repo path =
    delete_found lock before w repo path (asset_by_path before repo path)
