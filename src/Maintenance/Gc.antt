-- ===== src/Maintenance/Gc.antt =====
-- internal/service/gc_service.go, lock_deadline.go: blobs that no asset names are removed.
-- A time is a count of units in which zero is the zero time, a duration that is not positive is
-- zero, and sizes and their sums stay below 2 ^ 63.
pub mod References
pub mod Deletions
pub mod Stores
use nexspence_demo.Prelude.{
  Bool, List, Option, Text, [], any_of, eq_text, false, if◌then◌else◌, length, ltb, none, not, some,
  true, ℕ, ◌&&◌, ◌++◌, ◌+◌, ◌==◌, ◌||◌, ◌∷◌,
}
use nexspence_demo.Prelude.Dict
use nexspence_demo.Prelude.Dict.{Dict}

-- domain's row of ListAllBlobRefs.
pub record BlobRef : Type 0 where
  pub store_id : Text
  pub blob_key : Text

pub record RefIndex : Type 0 where
  pub by_store : Dict (List Text)
  pub any_pos : List Text

unfoldable pub has : RefIndex → Text → Text → Bool
has i store_id key =
    if any_of (eq_text key) i.any_pos then true else elim (Dict.get store_id i.by_store) [
      | none ↦ false
      | some keys ↦ any_of (eq_text key) keys
    ]

unfoldable pub keys_or_new : Option (List Text) → List Text
keys_or_new none = []
keys_or_new (some keys) = keys

unfoldable pub add_ref : RefIndex → BlobRef → RefIndex
unfolding keys_or_new
add_ref i r =
    if eq_text r.store_id []
    then record i { any_pos = r.blob_key ∷ i.any_pos }
    else let keys = keys_or_new (Dict.get r.store_id i.by_store) in
      record i { by_store = Dict.put r.store_id (r.blob_key ∷ keys) i.by_store }

unfoldable pub add_refs : RefIndex → List BlobRef → RefIndex
unfolding add_ref
add_refs i [] = i
add_refs i (r ∷ refs) = add_refs (add_ref i r) refs

unfoldable pub referenced_set : List BlobRef → RefIndex
unfolding add_refs
referenced_set refs = add_refs (record { by_store = []; any_pos = [] }) refs

-- A zero deadline is `none`.
unfoldable pub past_deadline : Option ℕ → ℕ → Bool
past_deadline none now = false
past_deadline (some deadline) now = not (ltb now deadline)

-- storage.BlobEntry.
pub record BlobEntry : Type 0 where
  pub key : Text
  pub size : ℕ
  pub mod_time : ℕ

pub data GcError : Type 0 where
  list_entries : GcError
  delete_failed : Text → GcError
  update_used_bytes : GcError
  resolve_store : GcError

pub record GcResult : Type 0 where
  pub store : Text
  pub scanned_blobs : ℕ
  pub orphans : ℕ
  pub freed_bytes : ℕ
  pub dry_run : Bool
  pub errors : List GcError
  pub aborted : Bool

-- What a pass is given: the run's options and lock, the references, the moment at which it looks at
-- its i-th entry, and which deletes of the store succeed.
pub record Pass : Type 0 where
  pub store_id : Text
  pub referenced : RefIndex
  pub min_age : ℕ
  pub dry_run : Bool
  pub deadline : Option ℕ
  pub now : ℕ → ℕ
  pub deletes : Text → Bool

-- time.Since(e.ModTime) < minAge, also for a blob whose time lies ahead.
unfoldable pub too_young : Pass → ℕ → BlobEntry → Bool
too_young p t e = ltb 0 p.min_age && not (e.mod_time == 0) && ltb t (e.mod_time + p.min_age)

-- The result, the bytes removed so far and the blobs that are gone.
pub record Swept : Type 0 where
  pub result : GcResult
  pub removed : ℕ
  pub gone : List BlobEntry

unfoldable pub visit : Pass → ℕ → BlobEntry → Swept → Swept
unfolding has too_young
visit p t e s =
    let r = record s.result {
      orphans = s.result.orphans + 1;
      freed_bytes = s.result.freed_bytes + e.size;
    } in
    if has p.referenced p.store_id e.key || too_young p t e
    then s
    else if p.dry_run
    then record s { result = r }
    else if p.deletes e.key
    then record { result = r; removed = s.removed + e.size; gone = s.gone ++ (e ∷ []) }
    else record s { result = record r { errors = r.errors ++ (delete_failed e.key ∷ []) } }

unfoldable pub sweep : Pass → ℕ → List BlobEntry → Swept → Swept
unfolding past_deadline visit
sweep p i [] s = s
sweep p i (e ∷ entries) s =
    let rest = sweep p (i + 1) entries (visit p (p.now i) e s) in
    if past_deadline p.deadline (p.now i)
    then record s { result = record s.result { aborted = true } }
    else rest

unfoldable pub empty_result : Text → Bool → GcResult
empty_result store dry_run = record {
  store = store;
  scanned_blobs = 0;
  orphans = 0;
  freed_bytes = 0;
  dry_run = dry_run;
  errors = [];
  aborted = false;
}

-- What a pass leaves behind: its result, the blobs that are gone, and the bytes that UpdateUsedBytes is
-- asked to take off used_bytes, which stops at 0 there; zero where no such update succeeds.
pub record Outcome : Type 0 where
  pub result : GcResult
  pub gone : List BlobEntry
  pub given_back : ℕ

-- ListEntries answers `none` for an error; `updates` tells whether UpdateUsedBytes succeeds.
unfoldable pub compact : Text → Pass → Option (List BlobEntry) → Bool → Outcome
unfolding sweep empty_result
compact name p none updates = record {
  result = record (empty_result name p.dry_run) { errors = list_entries ∷ [] };
  gone = [];
  given_back = 0;
}
compact name p (some entries) updates =
    let first = record (empty_result name p.dry_run) { scanned_blobs = length entries } in
    let s = sweep p 0 entries (record { result = first; removed = 0; gone = [] }) in
    if ltb 0 s.removed && not updates
    then record {
      result = record s.result { errors = s.result.errors ++ (update_used_bytes ∷ []) };
      gone = s.gone;
      given_back = 0;
    }
    else record { result = s.result; gone = s.gone; given_back = s.removed }
