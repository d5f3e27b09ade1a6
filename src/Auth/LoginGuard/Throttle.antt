-- ===== src/Auth/LoginGuard/Throttle.antt =====
-- What a failed and a successful login do to the wait of the same account.
use nexspence_demo.Prelude.{
  Option-cases, Text, ap, arith, eq_text_refl, inl, inr, some, true, ℕ, ◌+◌, ◌-◌, ◌∙◌, ◌≡◌,
}
use nexspence_demo.Prelude.Dict.{get-put, get-remove}
use nexspence_demo.Auth.LoginGuard.{
  Guard, SharedStore, sweep, load, shared_load, local_load, shared_save, shared_delete, normalize,
  penalty, retry_after, record_failure, record_success,
}

-- There is no shared store, or it answers.
abbrev pub Answers : Guard → Type 0
Answers g = (s : SharedStore) → g.store ≡ some s → s.reachable ≡ true

module _ (lower : Text → Text) where
  pub load-record_failure :
      (g : Guard) (name : Text) (now : ℕ)
      → Answers g
      → load (record_failure lower g name now) (normalize lower name) ≡ (
        (load g (normalize lower name)).0 + 1,
        now + penalty g.policy ((load g (normalize lower name)).0 + 1),
      )
  unfolding record_failure load shared_load local_load shared_save
  load-record_failure g name now a =
      let key = normalize lower name in
      let failures = (load g key).0 + 1 in
      let blocked = now + penalty g.policy failures in
      elim (Option-cases g.store) [
        | inl e ↦ ground (
          arith,
          e,
          eq_text_refl key,
          get-put key key (record { failures = failures; blocked_until = blocked; last_seen = now })
              (sweep now g.entries),
        )
        | inr (s, e) ↦
            ground (arith, e, a s e, eq_text_refl key, get-put key key (failures, blocked) s.saved)
      ]

  wait_at :
      (g : Guard) (name : Text) (now : ℕ)
      → retry_after lower (some g) name now ≡ (load g (normalize lower name)).1 - now
  unfolding retry_after
  wait_at g name now = ground arith

  load-record_success :
      (g : Guard) (name : Text)
      → Answers g
      → load (record_success lower g name) (normalize lower name) ≡ (0, 0)
  unfolding record_success load shared_load local_load shared_delete
  load-record_success g name a =
      let key = normalize lower name in
      elim (Option-cases g.store) [
        | inl e ↦ ground (arith, e, eq_text_refl key, get-remove key key g.entries)
        | inr (s, e) ↦ ground (
          arith,
          e,
          a s e,
          eq_text_refl key,
          get-remove key key s.saved,
          get-remove key key g.entries,
        )
      ]

  -- Where there is no shared store, or it answers: a failure at `now` raises the count by one, and
  -- makes the account wait, under any spelling that normalizes alike, until `now` plus the penalty
  -- of the new count.
  pub retry_after-record_failure :
      (g : Guard) (name alias : Text) (now later : ℕ)
      → Answers g
      → normalize lower alias ≡ normalize lower name
      → (retry_after lower (some (record_failure lower g name now)) alias later
          ≡ now + penalty g.policy ((load g (normalize lower name)).0 + 1) - later)
        × ((load (record_failure lower g name now) (normalize lower alias)).0
            ≡ (load g (normalize lower name)).0 + 1)
  retry_after-record_failure g name alias now later a e =
      let found : load (record_failure lower g name now) (normalize lower alias) ≡ (
        (load g (normalize lower name)).0 + 1,
        now + penalty g.policy ((load g (normalize lower name)).0 + 1),
      ) =
        rw e (load-record_failure g name now a) in
      (
        wait_at (record_failure lower g name now) alias later
            ∙ ap (λ (r : ℕ × ℕ). r.1 - later) found,
        ap (λ (r : ℕ × ℕ). r.0) found,
      )

  -- Where there is no shared store, or it answers: a success leaves the account no wait at any time,
  -- under any spelling that normalizes alike, and its count starts again at 0.
  pub retry_after-record_success :
      (g : Guard) (name alias : Text) (now : ℕ)
      → Answers g
      → normalize lower alias ≡ normalize lower name
      → (retry_after lower (some (record_success lower g name)) alias now ≡ 0)
        × ((load (record_success lower g name) (normalize lower alias)).0 ≡ 0)
  retry_after-record_success g name alias now a e =
      let found : load (record_success lower g name) (normalize lower alias) ≡ (0, 0) =
        rw e (load-record_success g name a) in
      (
        wait_at (record_success lower g name) alias now
            ∙ ap (λ (r : ℕ × ℕ). r.1 - now) found
            ∙ omega arith,
        ap (λ (r : ℕ × ℕ). r.0) found,
      )
