-- ===== src/Auth/LoginGuard/Quiet.antt =====
-- What a success on one node leaves on another.
use nexspence_demo.Prelude.{Text, arith, eq_text_refl, some, true, ℕ, ◌-◌, ◌≡◌}
use nexspence_demo.Prelude.Dict
use nexspence_demo.Prelude.Dict.{get-remove}
use nexspence_demo.Auth.LoginGuard.{
  Guard, Entry, SharedStore, load, local_load, shared_load, shared_delete, normalize,
  record_success, retry_after,
}

-- Two nodes that share a store which answers: after a success on one, the other still reports the
-- wait of its own in-process entry.
pub other_node_still_waits :
    (lower : Text → Text) (a b : Guard) (s : SharedStore) (name : Text) (now : ℕ) (mine : Entry)
    → a.store ≡ some s
    → s.reachable ≡ true
    → Dict.get (normalize lower name) b.entries ≡ some mine
    → retry_after lower (some (record b { store = (record_success lower a name).store })) name now
      ≡ mine.blocked_until - now
unfolding retry_after record_success load local_load shared_load shared_delete
other_node_still_waits lower a b s name now mine e up own =
    let key = normalize lower name in
    ground (arith, e, up, own, eq_text_refl key, get-remove key key s.saved)
