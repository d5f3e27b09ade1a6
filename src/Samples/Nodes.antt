-- ===== src/Samples/Nodes.antt =====
-- Login throttle, metrics and blob stores on concrete inputs.
use nexspence_demo.Prelude.{
  Text, [], arith, codes, eq_text, none, refl, some, trim_space, true, ℕ, ◌++◌, ◌+◌, ◌-◌, ◌∷◌, ◌≡◌,
}
use nexspence_demo.Prelude.Dict
use nexspence_demo.Prelude.Dict.{Dict}
use nexspence_demo.Metrics.Ring.{empty_ring, zero_point, add, snapshot}
use nexspence_demo.Metrics.Ring.History.{snapshot-add, recent, IsValid-empty_ring}
use nexspence_demo.Auth.LoginGuard.{
  Guard, Entry, SharedStore, default_policy, penalty, load, normalize, retry_after, record_failure,
  record_success,
}
use nexspence_demo.Auth.LoginGuard.Penalty.{penalty-eq-min}
use nexspence_demo.Auth.LoginGuard.Throttle.{retry_after-record_failure}
use nexspence_demo.Auth.LoginGuard.Quiet.{other_node_still_waits}
use nexspence_demo.Storage.Registry.{MemberInfo, Registry, pick, get_store, invalidate}
use nexspence_demo.Storage.Registry.Pick.{pick-Fits, Fits}

snapshot-add_example :
    snapshot (add empty_ring zero_point) ≡ recent (snapshot empty_ring ++ zero_point ∷ [])
snapshot-add_example = snapshot-add empty_ring zero_point IsValid-empty_ring

penalty-eq-min_example : penalty default_policy 7 ≡ 2000000000
penalty-eq-min_example = penalty-eq-min default_policy 7 (omega arith) (omega arith)

abbrev old_entry : Entry
old_entry = record { failures = 4; blocked_until = 10; last_seen = 5 }

abbrev as_is : Text → Text
as_is t = t

abbrev bob : Text
bob = codes "bob"

abbrev local_guard : Guard
local_guard = record { policy = default_policy; store = none; entries = (bob, old_entry) ∷ [] }

abbrev shared_store : SharedStore
shared_store = record { saved = []; reachable = true }

abbrev shared_guard : Guard
shared_guard = record local_guard { store = some shared_store }

-- An entry that is older than entryTTL counts on.
stale_entry :
    (load (record_failure as_is local_guard bob 9000000000000) (normalize as_is bob)).0 ≡ 5
unfolding load record_failure Dict.get Dict.put nexspence_demo.Auth.LoginGuard.sweep eq_text
    trim_space
stale_entry = refl

other_node_still_waits_example :
    retry_after as_is
      (some (record shared_guard { store = (record_success as_is shared_guard bob).store }))
      bob
      3
    ≡ 7
unfolding normalize eq_text trim_space Dict.get
other_node_still_waits_example =
    other_node_still_waits as_is shared_guard shared_guard shared_store bob 3 old_entry refl refl
      refl

abbrev full_member : MemberInfo
full_member = record { id = codes "full"; quota_bytes = some 10; used_bytes = 10 }

abbrev free_member : MemberInfo
free_member = record { id = codes "free"; quota_bytes = none; used_bytes = 10 }

pick-Fits_example :
    Fits
      (full_member ∷ free_member ∷ [])
      (pick [] (codes "g") (codes "round_robin") (full_member ∷ free_member ∷ [])).0
unfolding nexspence_demo.Storage.Registry.counter Dict.get
pick-Fits_example =
    pick-Fits [] (codes "g") (codes "round_robin") (full_member ∷ free_member ∷ []) (omega arith)

abbrev registry : Registry ℕ
registry = record { instances = []; default_store = 0 }

retry_after-record_failure_example :
    (retry_after as_is (some (record_failure as_is local_guard bob 100)) (codes " bob") 100
      ≡ 100 + penalty default_policy 5 - 100)
    × ((load (record_failure as_is local_guard bob 100) (normalize as_is (codes " bob"))).0 ≡ 5)
unfolding normalize eq_text trim_space Dict.get load
retry_after-record_failure_example =
    retry_after-record_failure as_is local_guard bob (codes " bob") 100 100 (λ s h. cc) refl
