-- ===== src/Samples/Jobs.antt =====
-- Background jobs and routing rules on concrete inputs.
use nexspence_demo.Prelude.{
  Bool, List, Option, Text, [], arith, codes, eq_text, false, if◌then◌else◌, inl, length, none, not,
  some, some≢none, suc, sym, true, zero, ℕ, ◌+◌, ◌<◌, ◌==◌, ◌∷◌, ◌≡◌, ◌≢◌, ◌≤◌, ◌⊎◌,
}
use nexspence_demo.Prelude.Dict
use nexspence_demo.Prelude.Dict.{Dict}
use nexspence_demo.Domain.{RoutingRule, Asset}
use nexspence_demo.Maintenance.Gc.{BlobRef, BlobEntry, Pass, compact, referenced_set}
use nexspence_demo.Maintenance.Gc.Deletions.{
  dry_run_predicts, targets, total, deleted, compact-accounts,
}
use nexspence_demo.Maintenance.Cleanup.{
  CleanupError, Backend, CleanupPolicy, CleanupRunResult, run_policy, out_of_fuel,
}
use nexspence_demo.Maintenance.Cleanup.Progress.{Counts, run_policy-ends}
use nexspence_demo.Maintenance.Cleanup.Accounts.{Counted, counting}
use nexspence_demo.Routing.{allow}
use nexspence_demo.Routing.Verdict.{IsCoherent, matches, allow-any_of}

abbrev live_ref : BlobRef
live_ref = record { store_id = 7 ∷ []; blob_key = 1 ∷ [] }

abbrev live_blob : BlobEntry
live_blob = record { key = 1 ∷ []; size = 10; mod_time = 1 }

abbrev lost_blob : BlobEntry
lost_blob = record { key = 2 ∷ []; size = 20; mod_time = 1 }

abbrev stuck_blob : BlobEntry
stuck_blob = record { key = 3 ∷ []; size = 40; mod_time = 1 }

abbrev all_blobs : List BlobEntry
all_blobs = live_blob ∷ lost_blob ∷ stuck_blob ∷ []

-- The third blob cannot be deleted.
abbrev pass : Pass
pass = record {
  store_id = 7 ∷ [];
  referenced = referenced_set (live_ref ∷ []);
  min_age = 5;
  dry_run = false;
  deadline = none;
  now = λ i. 100 + i;
  deletes = λ k. not (eq_text k (3 ∷ []));
}

compact-accounts_example :
    ((compact (codes "main") pass (some all_blobs) true).given_back
      ≡ total (compact (codes "main") pass (some all_blobs) true).gone)
    × ((compact (codes "main") pass (some all_blobs) true).result.freed_bytes
        ≡ total (targets pass 0 all_blobs))
    × ((compact (codes "main") pass (some all_blobs) true).result.orphans
        ≡ length (targets pass 0 all_blobs))
    × ((compact (codes "main") pass (some all_blobs) true).gone
        ≡ deleted pass (targets pass 0 all_blobs))
compact-accounts_example = compact-accounts (codes "main") pass all_blobs true

-- A world of some stale rows, and the bytes taken off used_bytes.
abbrev SmallWorld : Type 0
SmallWorld = ℕ × ℕ

abbrev stale_asset : Asset
stale_asset = record {
  id = 1 ∷ [];
  component_id = [];
  repository = [];
  path = [];
  blob_store_id = [];
  blob_key = 1 ∷ [];
  size_bytes = 8;
  last_modified = 1;
  last_downloaded = none;
}

delete_row : ℕ → ℕ → Option Bool × SmallWorld
delete_row zero l = (some false, (zero, l))
delete_row (suc n) l = (some true, (n, l))

abbrev backend : Backend SmallWorld
backend = record {
  past = λ w. false;
  list_stale = λ f limit w. some (if w.0 == 0 then [] else stale_asset ∷ []);
  lock_key = λ a w. true;
  delete_if_unchanged = λ a w. delete_row w.0 w.1;
  count_others = λ a w. some 0;
  delete_blob = λ a w. (true, w);
  decrement_usage = λ a w. (w.0, w.1 + a.size_bytes);
  delete_orphans = λ n w. w;
  record_run = λ n m w. w;
  names_by_policy = λ id w. some [];
}

delete_row_less : (n l : ℕ) → (delete_row n l).0 ≡ some true → (delete_row n l).1.0 < n
unfolding delete_row
delete_row_less zero l h = cc
delete_row_less (suc n) l h = omega arith

delete_row_le : (n l : ℕ) → (delete_row n l).1.0 ≤ n
unfolding delete_row
delete_row_le zero l = omega arith
delete_row_le (suc n) l = omega arith

backend_counts : Counts backend (λ w. w.0)
backend_counts = record {
  deletes_one = λ a w. delete_row_less w.0 w.1;
  delete_adds_none = λ a w. delete_row_le w.0 w.1;
  blob_adds_none = λ a w. omega arith;
  usage_adds_none = λ a w. omega arith;
}

abbrev policy : CleanupPolicy
policy = record {
  id = 1 ∷ [];
  format = 42 ∷ [];
  enabled = true;
  dry_run = false;
  criteria = none;
  scope_repository = 5 ∷ [];
  scope_path_prefix = [];
  retain_versions = 0;
}

run_policy-ends_example : (run_policy backend 10 policy (2, 0)).0 ≢ inl out_of_fuel
run_policy-ends_example =
    run_policy-ends backend (λ w. w.0) backend_counts 10 policy (2, 0) (omega arith)

abbrev two_deleted : CleanupRunResult
two_deleted = record {
  policy_id = 1 ∷ [];
  dry_run = false;
  skipped = false;
  deleted = 2;
  freed_bytes = 16;
  aborted = false;
}

abbrev counted_run : (CleanupError ⊎ CleanupRunResult) × Counted SmallWorld
counted_run = run_policy (counting backend) 10 policy ((2, 0), 0, 0)

-- Every expression is taken literally.
abbrev literal : Text → Option (Text → Bool)
literal m = some (λ p. eq_text m p)

abbrev block_rule : RoutingRule
block_rule = record { id = 1 ∷ []; name = 2 ∷ []; mode = codes "BLOCK"; matchers = (3 ∷ []) ∷ [] }

allow-any_of_example :
    ((allow literal (some block_rule) (3 ∷ []) []).0 ≡ false)
    × IsCoherent literal (allow literal (some block_rule) (3 ∷ []) []).1
unfolding Dict.get eq_text matches
allow-any_of_example =
    allow-any_of literal block_rule (3 ∷ []) [] (λ k re h. absurd (some≢none (sym h)))

dry_run_predicts_example :
    ((compact (codes "main") (record pass { dry_run = true }) (some all_blobs) true).result.orphans
      ≡ (compact (codes "main") pass (some all_blobs) true).result.orphans)
    × ((compact
          (codes "main")
          (record pass { dry_run = true })
          (some all_blobs)
          true).result.freed_bytes
        ≡ (compact (codes "main") pass (some all_blobs) true).result.freed_bytes)
dry_run_predicts_example = dry_run_predicts (codes "main") pass all_blobs true true
