-- ===== src/Auth/LoginGuard.antt =====
-- internal/auth/loginguard: the per-account throttle (loginguard.go) over the in-process map and
-- the shared store (redis_store.go). Times and durations are nanoseconds; time 0 is Go's zero time.
-- A duration is an int64, kept as its 64-bit pattern.
pub mod Penalty
pub mod Throttle
pub mod Quiet
use nexspence_demo.Prelude.{
  Bool, Option, Text, [], if◌then◌else◌, leb, ltb, map, none, not, some, suc, trim_space, zero, ℕ,
  ◌%◌, ◌*◌, ◌+◌, ◌-◌, ◌^◌, ◌∷◌,
}
use mathlib.Core.Option
use nexspence_demo.Prelude.Dict
use nexspence_demo.Prelude.Dict.{Dict}

abbrev pub entry_ttl : ℕ
entry_ttl = 1800000000000

pub record Policy : Type 0 where
  pub threshold : ℕ
  pub base_delay : ℕ
  pub max_delay : ℕ

abbrev pub default_policy : Policy
default_policy = record { threshold = 5; base_delay = 1000000000; max_delay = 900000000000 }

-- The struct `state`.
pub record Entry : Type 0 where
  pub failures : ℕ
  pub blocked_until : ℕ
  pub last_seen : ℕ

-- redisStore: what Redis holds for each account, and whether it answers. The expiry of a key is a
-- step of the environment, which removes it.
pub record SharedStore : Type 0 where
  pub saved : Dict (ℕ × ℕ)
  pub reachable : Bool

pub record Guard : Type 0 where
  pub policy : Policy
  pub store : Option SharedStore
  pub entries : Dict Entry

unfoldable pub new_guard : Option SharedStore → Policy → Guard
new_guard store policy = record { policy = policy; store = store; entries = [] }

-- int64 values in two's complement: the order, and d *= 2.
unfoldable pub le_signed : ℕ → ℕ → Bool
le_signed a b = leb ((a + 2 ^ 63) % 2 ^ 64) ((b + 2 ^ 63) % 2 ^ 64)

unfoldable pub double : ℕ → ℕ
double d = d * 2 % 2 ^ 64

-- The loop of penalty and the cap after it.
unfoldable pub escalate : ℕ → ℕ → ℕ → ℕ
unfolding le_signed double
escalate zero cap d = if not (le_signed d cap) then cap else d
escalate (suc n) cap d =
    let rest = escalate n cap (double d) in if le_signed cap (double d) then cap else rest

unfoldable pub penalty : Policy → ℕ → ℕ
unfolding escalate
penalty p failures =
    if leb failures p.threshold
    then 0
    else escalate (failures - p.threshold - 1) p.max_delay p.base_delay

-- Store.Load, Save and Delete: best effort.
unfoldable pub shared_load : SharedStore → Text → Option (ℕ × ℕ)
shared_load s key = if s.reachable then Dict.get key s.saved else none

unfoldable pub shared_save : SharedStore → Text → ℕ → ℕ → SharedStore
shared_save s key failures blocked =
    if s.reachable then record s { saved = Dict.put key (failures, blocked) s.saved } else s

unfoldable pub shared_delete : SharedStore → Text → SharedStore
shared_delete s key = if s.reachable then record s { saved = Dict.remove key s.saved } else s

-- The in-process half of load.
unfoldable pub local_load : Guard → Text → ℕ × ℕ
local_load g key = elim (Dict.get key g.entries) [
  | none ↦ (0, 0)
  | some e ↦ (e.failures, e.blocked_until)
]

unfoldable pub load : Guard → Text → ℕ × ℕ
unfolding local_load shared_load
load g key = elim g.store [
  | none ↦ local_load g key
  | some s ↦ elim (shared_load s key) [ none ↦ local_load g key | some r ↦ r ]
]

-- sweep: `last_seen` before now - entryTTL
unfoldable pub sweep : ℕ → Dict Entry → Dict Entry
sweep now [] = []
sweep now ((k, e) ∷ m) =
    let rest = sweep now m in if ltb e.last_seen (now - entry_ttl) then rest else (k, e) ∷ rest

-- The operations, for a lower-casing function `lower` (strings.ToLower).
module _ (lower : Text → Text) where
  unfoldable pub normalize : Text → Text
  normalize username = lower (trim_space username)

  -- A nil guard is `none`.
  unfoldable pub retry_after : Option Guard → Text → ℕ → ℕ
  unfolding normalize
  retry_after none username now = 0
  retry_after (some g) username now =
      if ltb now (load g (normalize username)).1 then (load g (normalize username)).1 - now else 0

  unfoldable pub record_failure : Guard → Text → ℕ → Guard
  unfolding normalize
  record_failure g username now =
      let key = normalize username in
      let failures = (load g key).0 + 1 in
      let blocked = now + penalty g.policy failures in
      record g {
        entries =
            Dict.put key (record { failures = failures; blocked_until = blocked; last_seen = now })
              (sweep now g.entries);
        store = Option.map (λ s. shared_save s key failures blocked) g.store;
      }

  unfoldable pub record_success : Guard → Text → Guard
  unfolding normalize
  record_success g username =
      let key = normalize username in
      record g {
        entries = Dict.remove key g.entries;
        store = Option.map (λ s. shared_delete s key) g.store;
      }
