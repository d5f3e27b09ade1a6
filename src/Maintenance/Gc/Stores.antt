-- ===== src/Maintenance/Gc/Stores.antt =====
-- internal/service/gc_service.go: CompactStore and CompactAll over the compaction of one store.
pub mod Results
use nexspence_demo.Prelude.{
  Bool, List, Option, Text, [], if◌then◌else◌, inl, inr, none, some, ℕ, ◌==◌, ◌∷◌, ◌⊎◌,
}
use nexspence_demo.Maintenance.Gc.{
  BlobRef, BlobEntry, RefIndex, Pass, GcError, GcResult, Outcome, referenced_set, empty_result,
  compact, resolve_store,
}

-- A row of the blob store table.
pub record StoreRow : Type 0 where
  pub id : Text
  pub name : Text

-- The physical store behind a row while it is compacted: its entries, `none` for an error, which
-- deletes succeed, whether used_bytes can be updated, and the moments of the pass.
pub record Physical : Type 0 where
  pub entries : Option (List BlobEntry)
  pub deletes : Text → Bool
  pub updates : Bool
  pub now : ℕ → ℕ

pub data RunError : Type 0 where
  acquire_failed : RunError
  list_references : RunError
  list_stores : RunError
  get_store_row : RunError
  resolve_failed : RunError

pub data Lock : Type 0 where
  no_lock : Lock
  held : Lock
  failed : Lock
  granted : Lock

-- The options of a run with its deadline; a minimal age that is not positive is 0.
pub record Options : Type 0 where
  pub dry_run : Bool
  pub min_age : ℕ
  pub default_min_age : ℕ
  pub deadline : Option ℕ

unfoldable pub pass_of : Options → RefIndex → StoreRow → Physical → Pass
pass_of o referenced row p = record {
  store_id = row.id;
  referenced = referenced;
  min_age = if o.min_age == 0 then o.default_min_age else o.min_age;
  dry_run = o.dry_run;
  deadline = o.deadline;
  now = p.now;
  deletes = p.deletes;
}

-- One round of CompactAll; `none` is a store that cannot be resolved.
unfoldable pub compact_row : Options → RefIndex → StoreRow → Option Physical → Outcome
unfolding pass_of
compact_row o referenced row none = record {
  result = record (empty_result row.name o.dry_run) { errors = resolve_store ∷ [] };
  gone = [];
  given_back = 0;
}
compact_row o referenced row (some p) =
    compact row.name (pass_of o referenced row p) p.entries p.updates

unfoldable pub compact_rows :
    Options → RefIndex → (StoreRow → Option Physical) → List StoreRow → List Outcome
unfolding compact_row
compact_rows o referenced resolve [] = []
compact_rows o referenced resolve (row ∷ rows) =
    compact_row o referenced row (resolve row) ∷ compact_rows o referenced resolve rows

-- CompactAll below the lock; the two queries answer `none` for an error.
unfoldable pub compact_listed :
    Options
    → Option (List BlobRef)
    → Option (List StoreRow)
    → (StoreRow → Option Physical)
    → RunError ⊎ List Outcome
unfolding referenced_set compact_rows
compact_listed o none rows resolve = inl list_references
compact_listed o (some refs) none resolve = inl list_stores
compact_listed o (some refs) (some rows) resolve =
    inr (compact_rows o (referenced_set refs) resolve rows)

-- CompactAll; the nil result of a run that another node already does is the empty list. A run
-- without a lock has no deadline.
unfoldable pub compact_all :
    Lock
    → Options
    → Option (List BlobRef)
    → Option (List StoreRow)
    → (StoreRow → Option Physical)
    → RunError ⊎ List Outcome
unfolding compact_listed
compact_all no_lock o refs rows resolve =
    compact_listed (record o { deadline = none }) refs rows resolve
compact_all held o refs rows resolve = inr []
compact_all failed o refs rows resolve = inl acquire_failed
compact_all granted o refs rows resolve = compact_listed o refs rows resolve

-- CompactStore takes no lock.
unfoldable pub compact_store :
    Options
    → Option (List BlobRef)
    → Option StoreRow
    → (StoreRow → Option Physical)
    → RunError ⊎ Outcome
unfolding referenced_set compact_row
compact_store o none row resolve = inl list_references
compact_store o (some refs) none resolve = inl get_store_row
compact_store o (some refs) (some row) resolve = elim (resolve row) [
  | none ↦ inl resolve_failed
  | some p ↦ inr (compact_row (record o { deadline = none }) (referenced_set refs) row (some p))
]
