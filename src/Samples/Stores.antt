-- ===== src/Samples/Stores.antt =====
-- The store of a write, and deletions, on small inputs.
use nexspence_demo.Formats.Store.Headroom.Admitted.{unreadable_store-unlimited, quota_headroom-Room}
use nexspence_demo.Formats.Store.Headroom.{quota_headroom, store_quota_configured}
use nexspence_demo.Formats.Store.Deletion.{commit_failed, committed, delete_artifact}
use nexspence_demo.Formats.Store.Deletion.Kept.{delete_artifact-keeps, has_object}
use nexspence_demo.Samples.Access.{main_repo}
use nexspence_demo.Domain.{Asset, BlobStore}
use nexspence_demo.Formats.Store.Quota.{Room, check_quota-IsChecked, RepoRoom, IsChecked}
use nexspence_demo.Formats.Store.{
  other_error, StoreError, Query, read_store, check_repo_quota, quota_exceeded, World, check_quota,
}
use nexspence_demo.Prelude.{
  Option, Text, [], arith, codes, eq_text, false, none, refl, some, true, ◌∷◌, ◌≡◌, ◌⊎◌,
}

abbrev default_store : BlobStore
default_store = record {
  id = codes "7";
  name = codes "default";
  kind = codes "file";
  config = none;
  quota_bytes = some 10;
  used_bytes = 4;
}

abbrev world : World
world = record {
  stores = default_store ∷ [];
  assets = [];
  objects = [];
  registered = λ id. true;
  counters = [];
  fails = λ q. false;
}

-- Two rows of one blob, the manifest's tag and its digest.
abbrev row : Text → Text → Asset
row id path = record {
  id = id;
  component_id = [];
  repository = codes "main";
  path = path;
  blob_key = codes "k";
  blob_store_id = codes "7";
  size_bytes = 3;
  last_modified = 1;
  last_downloaded = none;
}

abbrev shared_world : World
shared_world = record world {
  assets = row (codes "1") (codes "tag") ∷ row (codes "2") (codes "digest") ∷ [];
  objects = (codes "7", codes "k") ∷ [];
}

abbrev one_left : World
one_left = record shared_world { assets = row (codes "2") (codes "digest") ∷ [] }

delete_tag :
    delete_artifact committed shared_world shared_world (codes "main") (codes "tag")
    ≡ (one_left, none)
unfolding delete_artifact eq_text
delete_tag = refl

-- The last row takes the bytes with it, and the store's counter goes down.
delete_last :
    delete_artifact committed one_left one_left (codes "main") (codes "digest")
    ≡ (record world { stores = record default_store { used_bytes = 1 } ∷ [] }, none)
unfolding delete_artifact eq_text
delete_last = refl

-- A commit that fails: the row and the object are gone, the answer is an error and the store's counter
-- stays.
delete_uncommitted :
    delete_artifact commit_failed one_left one_left (codes "main") (codes "digest")
    ≡ (world, some other_error)
unfolding delete_artifact eq_text
delete_uncommitted = refl

abbrev tag_deleted : World × Option StoreError
tag_deleted = delete_artifact committed shared_world shared_world (codes "main") (codes "tag")

delete_artifact-keeps_example :
    (has_object tag_deleted.0 (codes "7") (codes "k")
      ≡ has_object shared_world (codes "7") (codes "k"))
    × ((tag_deleted.1 ≡ none)
        ⊎ (tag_deleted.0 ≡ shared_world)
        ⊎ ((committed ≡ commit_failed) × (tag_deleted.0.stores ≡ shared_world.stores)))
unfolding nexspence_demo.Formats.Store.Deletion.Kept.is_named delete_artifact eq_text
delete_artifact-keeps_example =
    delete_artifact-keeps committed shared_world shared_world (codes "main") (codes "tag")
      (codes "7") (codes "k") refl

fits : check_quota world main_repo 6 ≡ none
unfolding check_quota nexspence_demo.Formats.Store.resolve_blob_store_obj
    nexspence_demo.Prelude.eq_text nexspence_demo.Formats.Store.default_blob_store
fits = refl

too_much : check_quota world main_repo 7 ≡ some quota_exceeded
unfolding check_quota nexspence_demo.Formats.Store.resolve_blob_store_obj
    nexspence_demo.Prelude.eq_text nexspence_demo.Formats.Store.default_blob_store
too_much = refl

check_quota-IsChecked_example :
    IsChecked world 6 default_store default_store × RepoRoom world main_repo 6 none
unfolding nexspence_demo.Formats.Store.resolve_blob_store_obj nexspence_demo.Prelude.eq_text
    nexspence_demo.Formats.Store.default_blob_store nexspence_demo.Storage.Registry.counter
    nexspence_demo.Prelude.Dict.get nexspence_demo.Formats.Store.group_members
    nexspence_demo.Formats.Store.group_member_ids check_quota
    nexspence_demo.Formats.Store.resolve_blob_store_ref
check_quota-IsChecked_example =
    check_quota-IsChecked world main_repo 6 default_store default_store refl (omega arith) refl refl

abbrev blind_world : World
blind_world = record world { fails = λ (q : Query). elim q [ read_store ↦ true | _ ↦ false ] }

unreadable_store-unlimited_example :
    (store_quota_configured blind_world main_repo (codes "7") ≡ false)
    × (quota_headroom blind_world main_repo (codes "7") 1000
        ≡ check_repo_quota blind_world main_repo 1000)
unreadable_store-unlimited_example =
    unreadable_store-unlimited blind_world main_repo (codes "7") 1000 refl

-- 1000 bytes are admitted into a store of 10.
overfilled : quota_headroom blind_world main_repo (codes "7") 1000 ≡ none
unfolding quota_headroom eq_text nexspence_demo.Formats.Store.store_by_id
overfilled = refl

refused : quota_headroom world main_repo (codes "7") 1000 ≡ some quota_exceeded
unfolding quota_headroom eq_text nexspence_demo.Formats.Store.store_by_id
refused = refl

quota_headroom-Room_example :
    Room default_store.quota_bytes default_store.used_bytes 6 × RepoRoom world main_repo 6 none
unfolding nexspence_demo.Formats.Store.Headroom.store_for_quota eq_text
    nexspence_demo.Formats.Store.store_by_id nexspence_demo.Formats.Store.is_group quota_headroom
quota_headroom-Room_example =
    quota_headroom-Room world main_repo (codes "7") 6 default_store refl refl refl
