-- ===== src/Locks/Exclusive.antt =====
-- A holder among the other nodes.
use nexspence_demo.Locks.{
  acquired_of, set_nx, del, del_if_match, holds_value, unavailable, lock_held, force_release,
  release, lock, Acquired, acquire, Redis, LockHandle,
}
use nexspence_demo.Prelude.{
  All, All-Among, Among, Bool, Bool-cases, List, Option-cases, Text, [], ap, ap₂, arith, eq_text,
  eq_text_iff, eq_text_refl, eq_text_sound, false, false≢true, inl, inr, none, refl, some,
  some≢none, subst, sym, true, ◌∙◌, ◌∷◌, ◌≡◌, ◌≢◌, ◌⊎◌,
}
use nexspence_demo.Prelude.Dict
use nexspence_demo.Prelude.Dict.{Dict, get-put, get-remove}

-- Redis, and every lock that was ever given out.
pub record System : Type 0 where
  pub redis : Redis
  pub handed : List LockHandle

-- No two locks have the same token.
unfoldable pub IsTold : List LockHandle → Type 0
IsTold [] = Unit
IsTold (l ∷ ls) = All (λ (h : LockHandle). eq_text h.token l.token ≡ false) ls × IsTold ls

unfoldable pub with_answer : List LockHandle → Redis × Acquired → System
with_answer ls (r, lock l) = record { redis = r; handed = l ∷ ls }
with_answer ls (r, lock_held) = record { redis = r; handed = ls }
with_answer ls (r, unavailable) = record { redis = r; handed = ls }

-- What can happen beside the holder of `l`: any acquisition with a new token, the release of any other
-- lock whether it is still held or stale, the expiry or the forced release of other keys, and Redis
-- going away and coming back.
pub data Elsewhere (l : LockHandle) : System → System → Type 0 where
  acquiring :
      (s : System) (key token : Text)
      → All (λ (h : LockHandle). eq_text h.token token ≡ false) s.handed
      → Elsewhere l s (with_answer s.handed (acquire s.redis key token))
  releasing :
      (s : System) (h : LockHandle)
      → Among h s.handed
      → h ≢ l
      → Elsewhere l s (record s { redis = (release s.redis h).0 })
  expiring :
      (s : System) (key : Text)
      → key ≢ l.key
      → Elsewhere l s
          (record s { redis = record s.redis { values = Dict.remove key s.redis.values } })
  forcing :
      (s : System) (key : Text)
      → key ≢ l.key
      → Elsewhere l s (record s { redis = (force_release s.redis key).0 })
  switching :
      (s : System) (b : Bool)
      → Elsewhere l s (record s { redis = record s.redis { reachable = b } })

pub data Meanwhile (l : LockHandle) : System → System → Type 0 where
  here : (s : System) → Meanwhile l s s
  after : (s t u : System) → Meanwhile l s t → Elsewhere l t u → Meanwhile l s u

-- The holder's state: tokens told apart, the lock given out, and its token in the store.
pub record IsHeld (l : LockHandle) (s : System) : Type 0 where
  pub told : IsTold s.handed
  pub given : Among l s.handed
  pub stored : Dict.get l.key s.redis.values ≡ some l.token

apart : (a b : Text) → a ≢ b → eq_text a b ≡ false
apart a b h = ground (arith, h, eq_text_iff a b)

-- Locks with the same token are the same lock.
same_token :
    (ls : List LockHandle) (a c : LockHandle)
    → IsTold ls
    → Among a ls
    → Among c ls
    → a.token ≡ c.token
    → a ≡ c
unfolding IsTold
same_token [] a c t m n e = absurd m
same_token (l ∷ ls) a c t (inl p) (inl q) e = sym p ∙ q
same_token (l ∷ ls) a c t (inl p) (inr n) e =
    let no = All-Among (λ (h : LockHandle). eq_text h.token l.token ≡ false) ls c t.0 n in
    absurd (
      false≢true
        (sym no ∙ ap₂ eq_text (sym e) (ap (λ (h : LockHandle). h.token) p) ∙ eq_text_refl a.token))
same_token (l ∷ ls) a c t (inr m) (inl q) e =
    let no = All-Among (λ (h : LockHandle). eq_text h.token l.token ≡ false) ls a t.0 m in
    absurd (
      false≢true
        (sym no ∙ ap₂ eq_text e (ap (λ (h : LockHandle). h.token) q) ∙ eq_text_refl c.token))
same_token (l ∷ ls) a c t (inr m) (inr n) e = same_token ls a c t.1 m n e

get-remove_other :
    (k j : Text) (m : Dict Text) (v : Text)
    → k ≢ j
    → Dict.get j m ≡ some v
    → Dict.get j (Dict.remove k m) ≡ some v
get-remove_other k j m v h e = ground (arith, get-remove k j m, apart k j h, e)

acquire-cases :
    (r : Redis) (key token : Text)
    → (acquire r key token ≡ (r, unavailable))
      ⊎ ((acquire r key token ≡ (r, lock_held))
          ⊎ ((Dict.get key r.values ≡ none)
              × (acquire r key token ≡ (
                record r { values = Dict.put key token r.values },
                lock (record { key = key; token = token }),
              ))))
unfolding acquire set_nx acquired_of
acquire-cases r key token = elim (Bool-cases r.reachable) [
  | inr f ↦ inl (rw (f, acquire, set_nx) refl)
  | inl t ↦ elim (Option-cases (Dict.get key r.values)) [
    | inl n ↦ inr (inr (n, rw (t, n, acquire, set_nx) (rw t refl)))
    | inr (v, e) ↦ inr (inl (rw (t, e, acquire, set_nx) (rw t refl)))
  ]
]

release-cases :
    (r : Redis) (h : LockHandle)
    → ((release r h).0 ≡ r)
      ⊎ ((holds_value r h.key h.token ≡ true)
          × ((release r h).0 ≡ record r { values = Dict.remove h.key r.values }))
unfolding release del_if_match
release-cases r h = elim (Bool-cases r.reachable) [
  | inr f ↦ inl (rw (f, release, del_if_match) refl)
  | inl t ↦ elim (Bool-cases (holds_value r h.key h.token)) [
    | inl m ↦ inr (m, rw (t, m, release, del_if_match) refl)
    | inr f ↦ inl (rw (t, f, release, del_if_match) refl)
  ]
]

acquiring-IsHeld :
    (l : LockHandle) (s : System) (key token : Text)
    → All (λ (h : LockHandle). eq_text h.token token ≡ false) s.handed
    → IsHeld l s
    → IsHeld l (with_answer s.handed (acquire s.redis key token))
unfolding with_answer IsTold
acquiring-IsHeld l s key token new h = elim (acquire-cases s.redis key token) [
  | inl e ↦ subst (λ a. IsHeld l (with_answer s.handed a)) (sym e) h
  | inr (inl e) ↦ subst (λ a. IsHeld l (with_answer s.handed a)) (sym e) h
  | inr (inr (n, e)) ↦
      subst (λ a. IsHeld l (with_answer s.handed a)) (sym e)
        (record {
          told = (new, h.told);
          given = inr h.given;
          stored =
              get-put key l.key token s.redis.values
              ∙ ground (arith, n, h.stored, eq_text_iff key l.key);
        })
]

removing-IsHeld :
    (l : LockHandle) (s : System) (key : Text)
    → key ≢ l.key
    → IsHeld l s
    → IsHeld l (record s { redis = record s.redis { values = Dict.remove key s.redis.values } })
removing-IsHeld l s key other h = record {
  told = h.told;
  given = h.given;
  stored = get-remove_other key l.key s.redis.values l.token other h.stored;
}

-- The value that a release of another lock finds is not its own, unless the keys differ.
other_key :
    (l h : LockHandle) (s : System)
    → IsHeld l s
    → Among h s.handed
    → h ≢ l
    → holds_value s.redis h.key h.token ≡ true
    → h.key ≢ l.key
unfolding holds_value
other_key l h s held m other found e = other (
    same_token s.handed h l held.told m held.given (
      sym (
        eq_text_sound l.token h.token
          (ground (arith, found, held.stored, ap (λ k. Dict.get k s.redis.values) e)))))

releasing-IsHeld :
    (l : LockHandle) (s : System) (h : LockHandle)
    → Among h s.handed
    → h ≢ l
    → IsHeld l s
    → IsHeld l (record s { redis = (release s.redis h).0 })
releasing-IsHeld l s h m other held = elim (release-cases s.redis h) [
  | inl e ↦ subst (λ r. IsHeld l (record s { redis = r })) (sym e) held
  | inr (found, e) ↦
      subst (λ r. IsHeld l (record s { redis = r })) (sym e)
        (removing-IsHeld l s h.key (other_key l h s held m other found) held)
]

forcing-IsHeld :
    (l : LockHandle) (s : System) (key : Text)
    → key ≢ l.key
    → IsHeld l s
    → IsHeld l (record s { redis = (force_release s.redis key).0 })
unfolding force_release del
forcing-IsHeld l s key other h = elim (Bool-cases s.redis.reachable) [
  | inl t ↦
      subst (λ r. IsHeld l (record s { redis = r }))
        (sym (ap (λ (p : Redis × Bool). p.0) (forced s.redis key t)))
        (removing-IsHeld l s key other h)
  | inr f ↦
      subst (λ r. IsHeld l (record s { redis = r }))
        (sym (ap (λ (p : Redis × Bool). p.0) (unforced s.redis key f))) h
]
  where
    forced :
        (r : Redis) (k : Text)
        → r.reachable ≡ true
        → force_release r k ≡ (record r { values = Dict.remove k r.values }, true)
    forced r k t = rw (t, force_release, del) refl

    unforced : (r : Redis) (k : Text) → r.reachable ≡ false → force_release r k ≡ (r, false)
    unforced r k f = rw (f, force_release, del) refl

Elsewhere-IsHeld : (l : LockHandle) (s t : System) → Elsewhere l s t → IsHeld l s → IsHeld l t
Elsewhere-IsHeld l _ _ (acquiring s key token new) h = acquiring-IsHeld l s key token new h
Elsewhere-IsHeld l _ _ (releasing s o m other) h = releasing-IsHeld l s o m other h
Elsewhere-IsHeld l _ _ (expiring s key other) h = removing-IsHeld l s key other h
Elsewhere-IsHeld l _ _ (forcing s key other) h = forcing-IsHeld l s key other h
Elsewhere-IsHeld l _ _ (switching s b) h = record {
  told = h.told;
  given = h.given;
  stored = h.stored;
}

Meanwhile-IsHeld : (l : LockHandle) (s t : System) → Meanwhile l s t → IsHeld l s → IsHeld l t
Meanwhile-IsHeld l _ _ (here s) h = h
Meanwhile-IsHeld l _ _ (after s t u m e) h = Elsewhere-IsHeld l t u e (Meanwhile-IsHeld l s t m h)

-- A held key is never given out.
held-acquire :
    (r : Redis) (key token v : Text) (h : LockHandle)
    → Dict.get key r.values ≡ some v
    → (acquire r key token).1 ≢ lock h
unfolding acquire set_nx acquired_of
held-acquire r key token v h e q = elim (acquire-cases r key token) [
  | inl p ↦ (let no = sym (ap (λ (a : Redis × Acquired). a.1) p) ∙ q in cc)
  | inr (inl p) ↦ (let no = sym (ap (λ (a : Redis × Acquired). a.1) p) ∙ q in cc)
  | inr (inr (n, p)) ↦ absurd (some≢none (sym e ∙ n))
]

-- From the moment a lock is held until its key expires or is dropped by force or its holder releases
-- it, and whatever other nodes do, stale holders that release their own old locks of the same key
-- among them, it stays held, and nobody is given a lock on its key.
pub lock-stays :
    (l : LockHandle) (s t : System) (token : Text) (h : LockHandle)
    → IsHeld l s
    → Meanwhile l s t
    → IsHeld l t × ((acquire t.redis l.key token).1 ≢ lock h)
lock-stays l s t token h held m =
    let still = Meanwhile-IsHeld l s t m held in
    (still, held-acquire t.redis l.key token l.token h still.stored)
