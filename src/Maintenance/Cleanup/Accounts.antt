-- ===== src/Maintenance/Cleanup/Accounts.antt =====
-- What a cleanup run reports as freed.
use nexspence_demo.Prelude.{Text, false, if◌then◌else◌, inr, true, ℕ, ◌+◌, ◌≡◌, ◌⊎◌}
use nexspence_demo.Domain.{Asset}
use nexspence_demo.Maintenance.Cleanup.{
  Backend, CleanupError, CleanupRunResult, Run, LoopEnd, Next, stop, again, loop_failed, loop_ended,
}

abbrev summary : CleanupRunResult → CleanupError ⊎ CleanupRunResult
summary r = inr r

-- The backend with two counts beside its world: the sizes of the assets whose blob a store reported as
-- deleted, and the sizes that decrement_usage was asked to take off. The operations are those of `b`.
abbrev pub Counted : Type 0 → Type 0
Counted W = W × ℕ × ℕ

unfoldable pub counting : {W : Type 0} → Backend W → Backend (Counted W)
counting b = record {
  past = λ v. b.past v.0;
  list_stale = λ f limit v. b.list_stale f limit v.0;
  lock_key = λ a v. b.lock_key a v.0;
  delete_if_unchanged =
      λ a v. ((b.delete_if_unchanged a v.0).0, ((b.delete_if_unchanged a v.0).1, v.1, v.2));
  count_others = λ a v. b.count_others a v.0;
  delete_blob = λ a v. (
    (b.delete_blob a v.0).0,
    ((b.delete_blob a v.0).1, if (b.delete_blob a v.0).0 then v.1 + a.size_bytes else v.1, v.2),
  );
  decrement_usage = λ a v. (b.decrement_usage a v.0, v.1, v.2 + a.size_bytes);
  delete_orphans = λ n v. (b.delete_orphans n v.0, v.1, v.2);
  record_run = λ n m v. (b.record_run n m v.0, v.1, v.2);
  names_by_policy = λ id v. b.names_by_policy id v.0;
}

module _ {W : Type 0} (b : Backend W) (ledger : W → ℕ) where
  -- The ledger gains the size of an asset whose blob is deleted and whose usage is then taken off, and
  -- nothing else that a run does touches it.
  record Books : Type 0 where
    frees :
        (a : Asset) (w : W)
        → (b.delete_blob a w).0 ≡ true
        → ledger (b.decrement_usage a (b.delete_blob a w).1) ≡ ledger w + a.size_bytes
    fails_keep :
        (a : Asset) (w : W)
        → (b.delete_blob a w).0 ≡ false
        → ledger (b.delete_blob a w).1 ≡ ledger w
    delete_keeps : (a : Asset) (w : W) → ledger (b.delete_if_unchanged a w).1 ≡ ledger w
    orphans_keep : (n : Text) (w : W) → ledger (b.delete_orphans n w) ≡ ledger w
    record_keeps : (n m : ℕ) (w : W) → ledger (b.record_run n m w) ≡ ledger w

  -- A run whose freed bytes are those entered since the ledger held `start`.
  abbrev pub IsBalanced : ℕ → Run b → Type 0
  IsBalanced start s = ledger s.world ≡ start + s.freed

  -- What a loop leaves, where it does not fail.
  abbrev pub EndsBalanced : ℕ → LoopEnd b → Type 0
  EndsBalanced start (loop_failed e s) = Unit {0}
  EndsBalanced start (loop_ended aborted s) = IsBalanced start s

  abbrev pub NextBalanced : ℕ → Next b → Type 0
  NextBalanced start (stop e) = EndsBalanced start e
  NextBalanced start (again n s) = IsBalanced start s
