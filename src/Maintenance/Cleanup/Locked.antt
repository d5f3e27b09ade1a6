-- ===== src/Maintenance/Cleanup/Locked.antt =====
-- internal/service/cleanup_service.go: runs under the policy's lock, and of all policies.
use nexspence_demo.Prelude.{List, Option, [], false, inl, inr, none, some, true, ℕ, ◌∷◌, ◌⊎◌}
use nexspence_demo.Maintenance.Cleanup.{
  Backend, CleanupPolicy, CleanupError, CleanupRunResult, run_policy, skipped_result, acquire_lock,
}

-- What Acquire answers, with `no_locker` where none is configured.
pub data LockAnswer : Type 0 where
  no_locker : LockAnswer
  lock_held : LockAnswer
  unreachable : LockAnswer
  granted : LockAnswer

-- A run without a lock has no deadline; the deadline of a granted lock is in `past`.
unfoldable pub run_policy_locked :
    {W : Type 0}
    → Backend W
    → LockAnswer
    → ℕ
    → CleanupPolicy
    → W
    → (CleanupError ⊎ CleanupRunResult) × W
unfolding run_policy skipped_result
run_policy_locked b no_locker fuel p w = run_policy (record b { past = λ _. false }) fuel p w
run_policy_locked b lock_held fuel p w = (inr (skipped_result b p), w)
run_policy_locked b unreachable fuel p w = (inl acquire_lock, w)
run_policy_locked b granted fuel p w = run_policy b fuel p w

-- RunAll on the listed policies: `some` is the error that it stops at.
unfoldable pub run_all :
    {W : Type 0}
    → Backend W
    → (CleanupPolicy → W → LockAnswer)
    → ℕ
    → List CleanupPolicy
    → W
    → Option CleanupError × W
unfolding run_policy_locked
run_all b answer fuel [] w = (none, w)
run_all b answer fuel (p ∷ policies) w = elim p.enabled [
  | false ↦ run_all b answer fuel policies w
  | true ↦
      let (r, after) = run_policy_locked b (answer p w) fuel p w in
      elim r [
        | inl acquire_lock ↦ (some acquire_lock, after)
        | _ ↦ run_all b answer fuel policies after
      ]
]
