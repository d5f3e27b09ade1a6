-- ===== src/Samples/Collection.antt =====
-- A garbage collection over all stores on concrete inputs.
use nexspence_demo.Prelude.{[], eq_text, false, inl, inr, none, refl, some, true, ◌∷◌, ◌≡◌, ◌≢◌}
use nexspence_demo.Maintenance.Gc.{BlobRef, BlobEntry, Outcome, compact}
use nexspence_demo.Maintenance.Gc.Stores.{StoreRow, Physical, Options, compact_all, granted, held}
use nexspence_demo.Maintenance.Gc.Stores.Results.{IsOrphan, compact_all-deletes_orphans}

abbrev row_a : StoreRow
row_a = record { id = 7 ∷ []; name = 8 ∷ [] }

abbrev kept_ref : BlobRef
kept_ref = record { store_id = 7 ∷ []; blob_key = 1 ∷ [] }

abbrev lost : BlobEntry
lost = record { key = 2 ∷ []; size = 20; mod_time = 1 }

abbrev disk : Physical
disk = record {
  entries = some (record { key = 1 ∷ []; size = 10; mod_time = 1 } ∷ lost ∷ []);
  deletes = λ k. true;
  updates = true;
  now = λ i. 100;
}

abbrev options : Options
options = record { dry_run = false; min_age = 0; default_min_age = 5; deadline = none }

abbrev lost_outcome : Outcome
lost_outcome = record {
  result = record {
    store = 8 ∷ [];
    scanned_blobs = 2;
    orphans = 1;
    freed_bytes = 20;
    dry_run = false;
    errors = [];
    aborted = false;
  };
  gone = lost ∷ [];
  given_back = 20;
}

run_result :
    compact_all granted options (some (kept_ref ∷ [])) (some (row_a ∷ [])) (λ r. some disk)
    ≡ inr (lost_outcome ∷ [])
unfolding compact_all compact nexspence_demo.Prelude.eq_text nexspence_demo.Prelude.Dict.get
    nexspence_demo.Prelude.Dict.put
run_result = refl

compact_all-deletes_orphans_example :
    (granted ≢ held)
    × (options.dry_run ≡ false)
    × IsOrphan options (kept_ref ∷ []) (λ r. some disk) (row_a ∷ []) lost_outcome lost
compact_all-deletes_orphans_example =
    compact_all-deletes_orphans granted options (kept_ref ∷ []) (row_a ∷ []) (λ r. some disk)
      (lost_outcome ∷ []) lost_outcome lost run_result (inl refl) (inl refl)
