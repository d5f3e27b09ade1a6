-- ===== src/Locks.antt =====
-- internal/distlock: locks in Redis (redis.go) and the one for a single node (noop.go).
pub mod Exclusive
use nexspence_demo.Prelude.{Bool, Option, Text, [], eq_text, false, if◌then◌else◌, none, some, true}
use nexspence_demo.Prelude.Dict
use nexspence_demo.Prelude.Dict.{Dict}

-- Redis as RedisBackend shows it: the value of each key, and whether it answers. The expiry of a key
-- is a step of the environment.
pub record Redis : Type 0 where
  pub values : Dict Text
  pub reachable : Bool

-- SetNX: none for an error, and otherwise whether the key was set.
unfoldable pub set_nx : Redis → Text → Text → Redis × Option Bool
set_nx r key value =
    if r.reachable
    then elim (Dict.get key r.values) [
      | none ↦ (record r { values = Dict.put key value r.values }, some true)
      | some v ↦ (r, some false)
    ]
    else (r, none)

-- Del and DelIfMatch: false for an error
unfoldable pub del : Redis → Text → Redis × Bool
del r key =
    if r.reachable then (record r { values = Dict.remove key r.values }, true) else (r, false)

unfoldable pub holds_value : Redis → Text → Text → Bool
holds_value r key value = elim (Dict.get key r.values) [ none ↦ false | some v ↦ eq_text v value ]

unfoldable pub del_if_match : Redis → Text → Text → Redis × Bool
unfolding holds_value
del_if_match r key value =
    if r.reachable
    then (if holds_value r key value
        then (record r { values = Dict.remove key r.values }, true)
        else (r, true))
    else (r, false)

-- redisLock
pub record LockHandle : Type 0 where
  pub key : Text
  pub token : Text

-- What Acquire returns: a lock, ErrLockHeld, or another error.
pub data Acquired : Type 0 where
  lock : LockHandle → Acquired
  lock_held : Acquired
  unavailable : Acquired

unfoldable pub acquired_of : Text → Text → Redis × Option Bool → Redis × Acquired
acquired_of key token (r, none) = (r, unavailable)
acquired_of key token (r, some false) = (r, lock_held)
acquired_of key token (r, some true) = (r, lock (record { key = key; token = token }))

-- `token` is the new UUID.
unfoldable pub acquire : Redis → Text → Text → Redis × Acquired
unfolding acquired_of set_nx
acquire r key token = acquired_of key token (set_nx r key token)

unfoldable pub release : Redis → LockHandle → Redis × Bool
unfolding del_if_match
release r l = del_if_match r l.key l.token

unfoldable pub force_release : Redis → Text → Redis × Bool
unfolding del
force_release r key = del r key

-- NoopLocker: the lock that does nothing
unfoldable pub noop_acquire : Redis → Text → Redis × Acquired
noop_acquire r key = (r, lock (record { key = key; token = [] }))
