-- ===== src/Oci/Uploads/Streamed.antt =====
-- A chunk on a store with the append extension.
use nexspence_demo.Prelude.{
  Bool, Bool-cases, Option, Text, ap, false, inl, inr, length, none, refl, some, subst, sym, true,
  ℕ, ◌++◌, ◌+◌, ◌<◌, ◌∙◌, ◌≡◌,
}
use nexspence_demo.Oci.Uploads.{
  grown, over, key, roll_back, append_streaming, settled, BlobBackend, Bytes, Body,
}
use nexspence_demo.Oci.Uploads.Staged.{IsStaging}
use nexspence_demo.Oci.Uploads.Chunks.{whole_chunk, chunk_past, take_front, Cut, Holds, IsAppended}

module _ {W : Type 0} (b : BlobBackend W) (staged : W → Text → Option Bytes)
    (laws : IsStaging b staged) where
  roll_back-IsAppended :
      (limit : ℕ) (id : Text) (bs : Bytes) (r : Body) (r' : W × Bool)
      → (r'.1 ≡ true → staged r'.0 (key id) ≡ some bs)
      → (0 < limit) × (limit < length bs + length r.bytes)
      → IsAppended b staged laws limit id bs r (roll_back b r')
  unfolding roll_back IsAppended
  roll_back-IsAppended limit id bs r (v, true) h past = (past.0, inr past.1, h refl)
  roll_back-IsAppended limit id bs r (v, false) h past = past

  settled_within :
      (id : Text) (stored limit n : ℕ) (v : W)
      → over b limit n ≡ false
      → settled b id stored limit (v, some n) ≡ (v, grown n)
  unfolding settled
  settled_within id stored limit n v f = rw (f, settled) refl

  settled-IsAppended :
      (limit : ℕ) (id : Text) (bs : Bytes) (r q : Body) (stored : ℕ) (a : W × Option ℕ)
      → stored ≡ length bs
      → Cut b staged laws limit stored r q
      → ((n : ℕ)
          → a.1 ≡ some n
          → (staged a.0 (key id) ≡ some (bs ++ q.bytes)) × (n ≡ length bs + length q.bytes))
      → IsAppended b staged laws limit id bs r (settled b id stored limit a)
  unfolding settled IsAppended
  settled-IsAppended limit id bs r q stored (v, none) e c h = tt
  settled-IsAppended limit id bs r q stored (v, some n) e c h =
      let (now, total) = h n refl in
      let sum : n ≡ stored + length q.bytes = rw e total in
      elim (Bool-cases (over b limit n)) [
        | inl t ↦ rw t (
            roll_back-IsAppended limit id bs r (b.truncate_blob v (key id) stored)
              (λ done.
                subst (λ k. staged (b.truncate_blob v (key id) k).0 (key id) ≡ some bs) (sym e)
                  (laws.truncate_shrinks v (key id) (length bs) (bs ++ q.bytes)
                      (subst (λ k. (b.truncate_blob v (key id) k).1 ≡ true) e done) now
                    ∙ ap (λ x. some x) (take_front bs q.bytes)))
              (subst (λ k. (0 < limit) × (limit < k + length r.bytes)) e
                (chunk_past b staged laws limit stored r q c (rw (sym sum) t))))
        | inr f ↦
            let (same, fits) = whole_chunk b staged laws limit stored n r q c sum f in
            subst (IsAppended b staged laws limit id bs r)
              (sym (settled_within id stored limit n v f))
              (
                subst (λ x. staged v (key id) ≡ some (bs ++ x)) same now,
                subst (λ x. n ≡ length bs + length x) same total,
                fits,
              )
      ]

  pub streaming-IsAppended :
      (limit : ℕ) (w : W) (id : Text) (bs : Bytes) (r q : Body) (stored : ℕ)
      → Holds b staged laws w id bs stored
      → Cut b staged laws limit stored r q
      → IsAppended b staged laws limit id bs r (append_streaming b w id q stored limit)
  unfolding append_streaming
  streaming-IsAppended limit w id bs r q stored h c =
      settled-IsAppended limit id bs r q stored (b.append_blob w (key id) q) h.1 c
        (λ n e. laws.append_grows w (key id) q n bs e h.0)
