-- ===== src/Storage/Registry.antt =====
-- internal/storage/registry.go: the choice of a group member for a write, and the cache of stores.
pub mod Pick
pub mod Cache
use nexspence_demo.Prelude.{
  Bool, List, Option, Text, [], codes, eq_text, get_or, if◌then◌else◌, length, ltb, none, some, suc,
  true, zero, ℕ, ◌%◌, ◌+◌, ◌^◌, ◌∷◌,
}
use nexspence_demo.Prelude.Dict
use nexspence_demo.Prelude.Dict.{Dict}

pub record MemberInfo : Type 0 where
  pub id : Text
  pub quota_bytes : Option ℕ
  pub used_bytes : ℕ

unfoldable pub has_capacity : MemberInfo → Bool
has_capacity m = elim m.quota_bytes [ none ↦ true | some q ↦ ltb m.used_bytes q ]

abbrev pub no_member : MemberInfo
no_member = record { id = []; quota_bytes = some 0; used_bytes = 0 }

-- The round-robin loop from `(start + i) % n` on, for the `k` rounds left; the sum is a uint64.
unfoldable pub scan : List MemberInfo → ℕ → ℕ → ℕ → ℕ → Option MemberInfo
scan members n start zero i = none
scan members n start (suc k) i =
    let m = get_or members ((start + i) % 2 ^ 64 % n) no_member in
    let rest = scan members n start k (i + 1) in if has_capacity m then some m else rest

unfoldable pub first_fit : List MemberInfo → Option MemberInfo
first_fit [] = none
first_fit (m ∷ members) = let rest = first_fit members in if has_capacity m then some m else rest

-- ctr.Load(): a group that was not picked from yet has counter 0.
unfoldable pub counter : Dict ℕ → Text → ℕ
counter counters group = elim (Dict.get group counters) [ none ↦ 0 | some c ↦ c ]

-- The member chosen, and the counters after the call.
unfoldable pub pick : Dict ℕ → Text → Text → List MemberInfo → Option MemberInfo × Dict ℕ
unfolding scan first_fit counter
pick counters group policy [] = (none, counters)
pick counters group policy (m ∷ members) =
    if eq_text policy (codes "round_robin")
    then (
      scan (m ∷ members) (length (m ∷ members)) (counter counters group) (length (m ∷ members)) 0,
      Dict.put group ((counter counters group + 1) % 2 ^ 64) counters,
    )
    else (first_fit (m ∷ members), counters)

-- PickMember's result: the id, or "".
unfoldable pub pick_member : Dict ℕ → Text → Text → List MemberInfo → Text
pick_member counters group policy members = elim (pick counters group policy members).0 [
  | none ↦ []
  | some m ↦ m.id
]

-- The cache of instances; `Store` is the type of physical stores.
pub record Registry (Store : Type 0) : Type 0 where
  pub instances : Dict Store
  pub default_store : Store

-- Get: `make` is newFromDescriptor on the descriptor, `raced` the instance that another caller
-- cached between the two locks.
module _ {Store : Type 0} where
  unfoldable pub get_cached : Registry Store → Text → Option Store → Option Store × Registry Store
  get_cached r id made = elim (Dict.get id r.instances) [
    | some bs ↦ (some bs, r)
    | none ↦ elim made [
      | none ↦ (none, r)
      | some bs ↦ (some bs, record r { instances = Dict.put id bs r.instances })
    ]
  ]

  unfoldable pub get_store : Registry Store → Text → Option Store → Option Store × Registry Store
  unfolding get_cached
  get_store r [] made = (some r.default_store, r)
  get_store r (c ∷ id) made = get_cached r (c ∷ id) made

  unfoldable pub invalidate : Registry Store → Text → Registry Store
  invalidate r id = record r { instances = Dict.remove id r.instances }
