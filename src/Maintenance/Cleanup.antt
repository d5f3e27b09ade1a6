-- ===== src/Maintenance/Cleanup.antt =====
-- internal/service/cleanup_service.go: policies that delete stale assets.
-- Counts of days that are not positive are zero (ListStale tests them with > 0); sizes and their
-- sums stay below 2 ^ 63.
pub mod Locked
pub mod Progress
pub mod Accounts
use nexspence_demo.Prelude.{
  Bool, List, Option, Text, [], codes, eq_text, false, if◌then◌else◌, inl, inr, leb, ltb, none, not,
  some, suc, true, zero, ℕ, ◌&&◌, ◌+◌, ◌==◌, ◌||◌, ◌∷◌, ◌⊎◌,
}
use nexspence_demo.Prelude.Dict
use nexspence_demo.Prelude.Dict.{Dict}
use nexspence_demo.Domain.{Asset, Config, Value, number, config_value, config_text}

pub record CleanupPolicy : Type 0 where
  pub id : Text
  pub format : Text
  pub enabled : Bool
  pub dry_run : Bool
  pub criteria : Config
  pub scope_repository : Text
  pub scope_path_prefix : Text
  pub retain_versions : ℕ

-- The arguments of ListStale but the limit.
pub record Filter : Type 0 where
  pub format : Text
  pub repositories : List Text
  pub last_downloaded_days : ℕ
  pub artifact_age_days : ℕ
  pub path_prefix : Text
  pub name_glob : Text
  pub retain_versions : ℕ

pub record CleanupRunResult : Type 0 where
  pub policy_id : Text
  pub dry_run : Bool
  pub skipped : Bool
  pub deleted : ℕ
  pub freed_bytes : ℕ
  pub aborted : Bool

pub data CleanupError : Type 0 where
  list_repositories : CleanupError
  list_stale_assets : CleanupError
  acquire_lock : CleanupError
  out_of_fuel : CleanupError

unfoldable pub int_criteria : Config → Text → ℕ
unfolding config_value
int_criteria m key = elim (config_value m key) [
  | none ↦ 0
  | some v ↦ elim v [ number n ↦ n | _ ↦ 0 ]
]

abbrev pub batch_limit : ℕ
batch_limit = 500

abbrev pub max_no_progress_passes : ℕ
max_no_progress_passes = 3

-- The repositories, the blob stores and the clock, as operations on the world `W`; `none` is an error.
pub record Backend (W : Type 0) : Type 0 where
  pub past : W → Bool
  pub list_stale : Filter → ℕ → W → Option (List Asset)
  pub lock_key : Asset → W → Bool
  pub delete_if_unchanged : Asset → W → Option Bool × W
  pub count_others : Asset → W → Option ℕ
  pub delete_blob : Asset → W → Bool × W
  pub decrement_usage : Asset → W → W
  pub delete_orphans : Text → W → W
  pub record_run : ℕ → ℕ → W → W
  pub names_by_policy : Text → W → Option (List Text)

module _ {W : Type 0} (b : Backend W) where
  pub record Run : Type 0 where
    pub world : W
    pub deleted : ℕ
    pub freed : ℕ

  -- What is done with the blob of a row that is gone.
  unfoldable pub free_blob : Asset → Run → Run
  free_blob a s =
      let (gone, world) = b.delete_blob a s.world in
      elim (b.count_others a s.world) [
        | some zero ↦
            (if gone
              then record s { world = b.decrement_usage a world; freed = s.freed + a.size_bytes }
              else record s { world = world })
        | _ ↦ s
      ]

  unfoldable pub delete_asset : Asset → Run → Run
  unfolding free_blob
  delete_asset a s =
      let (row, world) = b.delete_if_unchanged a s.world in
      if not (b.lock_key a s.world) then s else elim row [
        | none ↦ record s { world = world }
        | some gone ↦
            (if gone
              then free_blob a (record s { world = world; deleted = s.deleted + 1 })
              else record s { world = world })
      ]

  unfoldable pub visit_asset : CleanupPolicy → Asset → Run → Run
  unfolding delete_asset
  visit_asset p a s =
      if p.dry_run
      then record s { deleted = s.deleted + 1; freed = s.freed + a.size_bytes }
      else delete_asset a s

  unfoldable pub visit_batch : CleanupPolicy → List Asset → Run → Run
  unfolding visit_asset
  visit_batch p [] s = s
  visit_batch p (a ∷ stale) s = visit_batch p stale (visit_asset p a s)

  -- How the loop ends: with an error, or with what was done and whether the deadline ended it.
  pub data LoopEnd : Type 0 where
    loop_failed : CleanupError → Run → LoopEnd
    loop_ended : Bool → Run → LoopEnd

  unfoldable pub fruitless : Run → Run → ℕ → ℕ
  fruitless before after no_progress =
      if after.deleted == before.deleted then no_progress + 1 else 0

  -- What one pass of the loop leads to: its end, or another pass.
  pub data Next : Type 0 where
    stop : LoopEnd → Next
    again : ℕ → Run → Next

  unfoldable pub next_pass : CleanupPolicy → Filter → ℕ → Run → Next
  unfolding visit_batch fruitless
  next_pass p f no_progress s = elim (b.list_stale f batch_limit s.world) [
    | none ↦
        (if b.past s.world
          then stop (loop_ended true s)
          else stop (loop_failed list_stale_assets s))
    | some [] ↦ stop (loop_ended (b.past s.world) s)
    | some (a ∷ stale) ↦
        let after = visit_batch p (a ∷ stale) s in
        let count = fruitless s after no_progress in
        (if b.past s.world
          then stop (loop_ended true s)
          else if p.dry_run || leb max_no_progress_passes count
          then stop (loop_ended false after)
          else again count after)
  ]

  unfoldable pub run_loop : ℕ → CleanupPolicy → Filter → ℕ → Run → LoopEnd
  unfolding next_pass
  run_loop zero p f no_progress s = loop_failed out_of_fuel s
  run_loop (suc fuel) p f no_progress s = elim (next_pass p f no_progress s) [
    | stop e ↦ e
    | again count after ↦ run_loop fuel p f count after
  ]

  unfoldable pub target_names : CleanupPolicy → W → Option (List Text)
  target_names p w =
      if eq_text p.scope_repository []
      then b.names_by_policy p.id w
      else some (p.scope_repository ∷ [])

  unfoldable pub filter_of : CleanupPolicy → List Text → Filter
  unfolding int_criteria config_text
  filter_of p names =
      let own = config_text p.criteria (codes "pathPrefix") in
      let scoped = not (eq_text p.scope_repository []) && not (eq_text p.scope_path_prefix []) in
      record {
        format = p.format;
        repositories = names;
        last_downloaded_days = int_criteria p.criteria (codes "lastDownloadedDays");
        artifact_age_days = int_criteria p.criteria (codes "artifactAgeDays");
        path_prefix = if scoped then p.scope_path_prefix else own;
        name_glob = config_text p.criteria (codes "nameGlob");
        retain_versions = p.retain_versions;
      }

  unfoldable pub prune : List Text → W → W
  prune [] w = w
  prune (n ∷ names) w = prune names (b.delete_orphans n w)

  unfoldable pub finish : CleanupPolicy → List Text → Bool → Run → CleanupRunResult × W
  unfolding prune
  finish p names aborted s =
      let pruned = if not p.dry_run && ltb 0 s.deleted then prune names s.world else s.world in
      (
        record {
          policy_id = p.id;
          dry_run = p.dry_run;
          skipped = false;
          deleted = s.deleted;
          freed_bytes = s.freed;
          aborted = aborted;
        },
        b.record_run s.deleted s.freed pruned,
      )

  unfoldable pub skipped_result : CleanupPolicy → CleanupRunResult
  skipped_result p = record {
    policy_id = p.id;
    dry_run = p.dry_run;
    skipped = true;
    deleted = 0;
    freed_bytes = 0;
    aborted = false;
  }

  unfoldable pub conclude :
      CleanupPolicy → List Text → LoopEnd → (CleanupError ⊎ CleanupRunResult) × W
  unfolding finish
  conclude p names (loop_failed e s) = (inl e, s.world)
  conclude p names (loop_ended aborted s) =
      let (res, after) = finish p names aborted s in (inr res, after)

  -- The run on the policy's repositories, `none` where they cannot be listed.
  unfoldable pub run_on :
      ℕ → CleanupPolicy → W → Option (List Text) → (CleanupError ⊎ CleanupRunResult) × W
  unfolding skipped_result run_loop filter_of conclude
  run_on fuel p w none = (inl list_repositories, w)
  run_on fuel p w (some []) = (inr (skipped_result p), w)
  run_on fuel p w (some (n ∷ names)) =
      let start : Run = record { world = w; deleted = 0; freed = 0 } in
      conclude p (n ∷ names) (run_loop fuel p (filter_of p (n ∷ names)) 0 start)

  unfoldable pub run_policy : ℕ → CleanupPolicy → W → (CleanupError ⊎ CleanupRunResult) × W
  unfolding target_names run_on
  run_policy fuel p w = run_on fuel p w (target_names p w)
