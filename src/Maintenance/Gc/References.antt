-- ===== src/Maintenance/Gc/References.antt =====
-- The index answers what the rows say.
use nexspence_demo.Prelude.{
  Bool, List, Text, [], any_of, arith, eq_text, eq_text_iff, ◌&&◌, ◌||◌, ◌∷◌, ◌≡◌,
}
use nexspence_demo.Prelude.Dict
use nexspence_demo.Prelude.Dict.{Dict, get-put}
use nexspence_demo.Maintenance.Gc.{
  BlobRef, RefIndex, has, add_ref, add_refs, referenced_set, keys_or_new,
}

-- The row names the key in the store, or names no store.
abbrev pub names : Text → Text → BlobRef → Bool
names store_id key r =
    eq_text key r.blob_key && (eq_text r.store_id [] || eq_text r.store_id store_id)

has-add_ref :
    (i : RefIndex) (r : BlobRef) (store_id key : Text)
    → has (add_ref i r) store_id key ≡ (has i store_id key || names store_id key r)
unfolding has add_ref keys_or_new
has-add_ref i r store_id key =
    let keys = keys_or_new (Dict.get r.store_id i.by_store) in
    ground (
      arith,
      get-put r.store_id store_id (r.blob_key ∷ keys) i.by_store,
      eq_text_iff r.store_id store_id,
    )

has-add_refs :
    (i : RefIndex) (refs : List BlobRef) (store_id key : Text)
    → has (add_refs i refs) store_id key ≡ (has i store_id key || any_of (names store_id key) refs)
unfolding add_refs
has-add_refs i [] store_id key = ground arith
has-add_refs i (r ∷ refs) store_id key =
    ground (arith, has-add_refs (add_ref i r) refs store_id key, has-add_ref i r store_id key)

-- A key counts as referenced in a store exactly if some row names the key together with that store or
-- with no store at all.
pub has-referenced_set :
    (refs : List BlobRef) (store_id key : Text)
    → has (referenced_set refs) store_id key ≡ any_of (names store_id key) refs
unfolding referenced_set has Dict.get
has-referenced_set refs store_id key =
    has-add_refs (record { by_store = []; any_pos = [] }) refs store_id key
