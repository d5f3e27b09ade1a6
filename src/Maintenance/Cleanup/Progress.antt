-- ===== src/Maintenance/Cleanup/Progress.antt =====
-- A cleanup run comes to its end.
use nexspence_demo.Prelude.{
  Bool, List, Option, Text, [], arith, false, if◌then◌else◌, inl, inr, leb, none, or_false, refl,
  some, subst, suc, sym, true, zero, ℕ, ◌*◌, ◌+◌, ◌-◌, ◌<◌, ◌||◌, ◌∷◌, ◌≡◌, ◌≢◌, ◌≤◌, ◌⊎◌,
}
use nexspence_demo.Domain.{Asset}
use nexspence_demo.Maintenance.Cleanup.{
  filter_of, list_repositories, conclude, CleanupRunResult, run_on, target_names, batch_limit,
  max_no_progress_passes, run_policy, stop, again, next_pass, Next, Backend, CleanupPolicy,
  CleanupError, Filter, Run, LoopEnd, loop_failed, loop_ended, out_of_fuel, free_blob, delete_asset,
  visit_asset, visit_batch, fruitless, run_loop, list_stale_assets,
}

other_error : list_stale_assets ≢ out_of_fuel
other_error e = cc

other_listing : list_repositories ≢ out_of_fuel
other_listing e = cc

abbrev failure : CleanupError → CleanupError ⊎ CleanupRunResult
failure e = inl e

inl-injective : {x y : CleanupError} → failure x ≡ failure y → x ≡ y
inl-injective e = cc

inr_not_inl : {r : CleanupRunResult} {e : CleanupError} → inr r ≢ failure e
inr_not_inl q = cc

-- The loop did not run out of fuel.
abbrev pub IsFinished : {W : Type 0} (b : Backend W) → LoopEnd b → Type 0
IsFinished b (loop_failed e s) = e ≢ out_of_fuel
IsFinished b (loop_ended aborted s) = Unit {0}

module _ {W : Type 0} (b : Backend W) (rows : W → ℕ) where
  -- The rows are counted: a delete that succeeds removes one, and nothing else adds any.
  pub record Counts : Type 0 where
    pub deletes_one :
        (a : Asset) (w : W)
        → (b.delete_if_unchanged a w).0 ≡ some true
        → rows (b.delete_if_unchanged a w).1 < rows w
    pub delete_adds_none : (a : Asset) (w : W) → rows (b.delete_if_unchanged a w).1 ≤ rows w
    pub blob_adds_none : (a : Asset) (w : W) → rows (b.delete_blob a w).1 ≤ rows w
    pub usage_adds_none : (a : Asset) (w : W) → rows (b.decrement_usage a w) ≤ rows w

  -- What a run may do to the rows and to its count: `deleted` grows by no more than rows vanish.
  abbrev pub Steps : Run b → Run b → Type 0
  Steps s t = (rows t.world + t.deleted ≤ rows s.world + s.deleted) × (s.deleted ≤ t.deleted)

  free_blob-Steps : Counts → (a : Asset) (s : Run b) → Steps s (free_blob b a s)
  unfolding free_blob
  free_blob-Steps c a s =
      let x = c.blob_adds_none a s.world in
      let y = c.usage_adds_none a (b.delete_blob a s.world).1 in ground (arith, x, y)

  delete_asset-Steps : Counts → (a : Asset) (s : Run b) → Steps s (delete_asset b a s)
  unfolding delete_asset
  delete_asset-Steps c a s =
      let world = (b.delete_if_unchanged a s.world).1 in
      ground (
        arith,
        c.deletes_one a s.world,
        c.delete_adds_none a s.world,
        free_blob-Steps c a (record s { world = world; deleted = s.deleted + 1 }),
      )

  visit_asset-real :
      (p : CleanupPolicy) (a : Asset) (s : Run b)
      → p.dry_run ≡ false
      → visit_asset b p a s ≡ delete_asset b a s
  unfolding visit_asset
  visit_asset-real p a s wet = ground (arith, wet)

  visit_batch-Steps :
      Counts
      → (p : CleanupPolicy) (stale : List Asset) (s : Run b) → p.dry_run ≡ false
      → Steps s (visit_batch b p stale s)
  unfolding visit_batch
  visit_batch-Steps c p [] s wet = omega arith
  visit_batch-Steps c p (a ∷ stale) s wet =
      let real = visit_asset-real p a s wet in
      let (x, y) = subst (Steps s) (sym real) (delete_asset-Steps c a s) in
      let (z, u) = visit_batch-Steps c p stale (visit_asset b p a s) wet in omega arith

  -- The passes that the loop may still need.
  abbrev pub passes : ℕ → Run b → ℕ
  passes n s = 3 * rows s.world + (3 - n)

  -- From `s` with `n` fruitless passes, the pass ends the loop properly or leaves fewer passes.
  abbrev pub IsNearer : ℕ → Run b → Next b → Type 0
  IsNearer n s (stop e) = IsFinished b e
  IsNearer n s (again m t) = (m < 3) × (passes m t < passes n s)

  IsNearer-if :
      (n : ℕ) (s : Run b) (c : Bool) (x y : Next b)
      → (c ≡ true → IsNearer n s x)
      → (c ≡ false → IsNearer n s y)
      → IsNearer n s (if c then x else y)
  IsNearer-if n s true x y hx hy = hx refl
  IsNearer-if n s false x y hx hy = hy refl

  again-IsNearer :
      Counts
      → (p : CleanupPolicy) (stale : List Asset) (n : ℕ) (s : Run b) → n < 3
      → (p.dry_run || leb 3 (fruitless b s (visit_batch b p stale s) n)) ≡ false
      → IsNearer n s (again (fruitless b s (visit_batch b p stale s) n) (visit_batch b p stale s))
  unfolding fruitless
  again-IsNearer c p stale n s small go =
      let (wet, few) = or_false p.dry_run (leb 3 (fruitless b s (visit_batch b p stale s) n)) go in
      let (x, y) = visit_batch-Steps c p stale s wet in ground (arith, x, y, few)

  next_pass-IsNearer :
      Counts
      → (p : CleanupPolicy) (f : Filter) (n : ℕ) (s : Run b) → n < 3
      → IsNearer n s (next_pass b p f n s)
  unfolding next_pass
  next_pass-IsNearer c p f n s small = by_rows (b.list_stale f batch_limit s.world)
    where
      by_rows :
          (o : Option (List Asset))
          → IsNearer n s (elim o as (λ _. Next b) [
            | none ↦
                (if b.past s.world
                  then stop (loop_ended true s)
                  else stop (loop_failed list_stale_assets s))
            | some [] ↦ stop (loop_ended (b.past s.world) s)
            | some (a ∷ stale) ↦
                (if b.past s.world
                  then stop (loop_ended true s)
                  else if p.dry_run
                      || leb max_no_progress_passes
                          (fruitless b s (visit_batch b p (a ∷ stale) s) n)
                  then stop (loop_ended false (visit_batch b p (a ∷ stale) s))
                  else again
                      (fruitless b s (visit_batch b p (a ∷ stale) s) n)
                      (visit_batch b p (a ∷ stale) s))
          ])
      by_rows none =
          IsNearer-if n s (b.past s.world) (stop (loop_ended true s))
            (stop (loop_failed list_stale_assets s)) (λ _. tt) (λ _. λ e. other_error e)
      by_rows (some []) = tt
      by_rows (some (a ∷ stale)) =
          IsNearer-if n s (b.past s.world) _ _ (λ _. tt)
            (λ _.
              IsNearer-if n s
                (p.dry_run
                  || leb max_no_progress_passes (fruitless b s (visit_batch b p (a ∷ stale) s) n))
                _ _ (λ _. tt) (again-IsNearer c p (a ∷ stale) n s small))

  run_loop-IsFinished :
      Counts
      → (fuel : ℕ) (p : CleanupPolicy) (f : Filter) (n : ℕ) (s : Run b) → n < 3
      → passes n s < fuel
      → IsFinished b (run_loop b fuel p f n s)
  unfolding run_loop
  run_loop-IsFinished c zero p f n s small h = absurd (omega arith)
  run_loop-IsFinished c (suc fuel) p f n s small h =
      after (next_pass b p f n s) (next_pass-IsNearer c p f n s small)
        (run_loop-IsFinished c fuel p f)
    where
      after :
          (x : Next b)
          → IsNearer n s x
          → ((m : ℕ) (t : Run b)
              → m < 3
              → passes m t < fuel
              → IsFinished b (run_loop b fuel p f m t))
          → IsFinished b (elim x [ stop e ↦ e | again m t ↦ run_loop b fuel p f m t ])
      after (stop e) q ih = q
      after (again m t) (u, v) ih = ih m t u (omega (arith, v))

  conclude-ends :
      (p : CleanupPolicy) (names : List Text) (e : LoopEnd b)
      → IsFinished b e
      → (conclude b p names e).0 ≢ inl out_of_fuel
  unfolding conclude
  conclude-ends p names (loop_failed e s) h q = h (inl-injective q)
  conclude-ends p names (loop_ended aborted s) h q = absurd (inr_not_inl q)

  run_on-ends :
      Counts
      → (fuel : ℕ) (p : CleanupPolicy) (w : W) (o : Option (List Text)) → 3 * rows w + 3 < fuel
      → (run_on b fuel p w o).0 ≢ inl out_of_fuel
  unfolding run_on
  run_on-ends c fuel p w none h q = other_listing (inl-injective q)
  run_on-ends c fuel p w (some []) h q = inr_not_inl q
  run_on-ends c fuel p w (some (n ∷ names)) h q =
      let start : Run b = record { world = w; deleted = 0; freed = 0 } in
      conclude-ends p (n ∷ names) (run_loop b fuel p (filter_of b p (n ∷ names)) 0 start)
        (run_loop-IsFinished c fuel p (filter_of b p (n ∷ names)) 0 start (omega arith)
          (omega arith))
        q

  -- A run of a policy ends: with fuel for three passes per row and four more, the loop never runs out
  -- of it, whatever the backend answers, as long as deletes that succeed remove a row and no step of
  -- the run adds one.
  pub run_policy-ends :
      Counts
      → (fuel : ℕ) (p : CleanupPolicy) (w : W) → 3 * rows w + 3 < fuel
      → (run_policy b fuel p w).0 ≢ inl out_of_fuel
  unfolding run_policy
  run_policy-ends c fuel p w h = run_on-ends c fuel p w (target_names b p w) h
