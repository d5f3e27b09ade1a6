-- ===== src/Oci/Uploads/Rewritten.antt =====
-- A chunk on a whole-object store, where the session is written again.
use nexspence_demo.Prelude.{
  Bool, Bool-cases, Option, Text, ap, ap₂, false, false≢true, if◌then◌else◌, inl, inr, length,
  length-append, none, refl, some, subst, sym, true, ℕ, ◌++◌, ◌+◌, ◌<◌, ◌∙◌, ◌≡◌, ◌≤◌, ◌⊎◌,
}
use nexspence_demo.Oci.Uploads.{
  too_large, failed, size, no_session, contents, grown, unreadable, over, Opened, fetched, rewrite,
  open_session, append_whole, key, BlobBackend, Bytes, Body,
}
use nexspence_demo.Oci.Uploads.Staged.{IsStaging}
use nexspence_demo.Oci.Uploads.Chunks.{whole_chunk, chunk_past, Cut, Holds, IsAppended}

module _ {W : Type 0} (b : BlobBackend W) (staged : W → Text → Option Bytes)
    (laws : IsStaging b staged) where
  -- What open answers on a whole-object store that holds the session.
  IsRead : Text → Bytes → W × Opened → Type 0
  IsRead id bs (v, no_session) = staged v (key id) ≡ some bs
  IsRead id bs (v, unreadable) = Unit
  IsRead id bs (v, contents existing) = existing ≡ bs

  fetched-IsRead :
      (w : W) (id : Text) (bs : Bytes)
      → b.appendable ≡ false
      → staged w (key id) ≡ some bs
      → IsRead id bs (fetched b w id)
  unfolding fetched IsRead
  fetched-IsRead w id bs plain h = got (b.get w (key id)) refl
    where
      got :
          (o : Option Bytes)
          → b.get w (key id) ≡ o
          → IsRead id bs (w, elim o [ none ↦ unreadable | some x ↦ contents x ])
      got none e = tt
      got (some x) e = let same = sym (laws.whole w (key id) x plain e) ∙ h in cc

  open_session-IsRead :
      (w : W) (id : Text) (bs : Bytes)
      → b.appendable ≡ false
      → staged w (key id) ≡ some bs
      → IsRead id bs (open_session b w id)
  unfolding open_session IsRead
  open_session-IsRead w id bs plain h = opened (size b w id) b.appendable plain
    where
      opened :
          (o : Option ℕ) (c : Bool)
          → c ≡ false
          → IsRead id bs (elim o [
            | none ↦ (w, no_session)
            | some n ↦
                if c
                then (let r = b.finalize_append w (key id) in
                    if r.1 then fetched b r.0 id else (r.0, unreadable))
                else fetched b w id
          ])
      opened none c e = h
      opened (some n) true e = absurd (false≢true (sym e))
      opened (some n) false e = fetched-IsRead w id bs plain h

  put-IsAppended :
      (limit : ℕ) (id : Text) (bs ex : Bytes) (r : Body) (v : W) (x : Bool)
      → ex ≡ bs ++ r.bytes
      → (x ≡ true → staged v (key id) ≡ some ex)
      → (limit ≡ 0) ⊎ (length bs + length r.bytes ≤ limit)
      → IsAppended b staged laws limit id bs r (v, if x then grown (length ex) else failed)
  unfolding IsAppended
  put-IsAppended limit id bs ex r v false e h fits = tt
  put-IsAppended limit id bs ex r v true e h fits =
      let total = ap (λ l. length l) e ∙ length-append bs r.bytes in
      (
        subst (λ l. staged v (key id) ≡ some l) e (h refl),
        total,
        subst (λ n. (limit ≡ 0) ⊎ (n ≤ limit)) (sym total) fits,
      )

  rewrite-IsAppended :
      (limit : ℕ) (id : Text) (bs : Bytes) (r q : Body) (o : W × Opened)
      → IsRead id bs o
      → q.bytes ≡ r.bytes
      → (limit ≡ 0) ⊎ (length bs + length r.bytes ≤ limit)
      → IsAppended b staged laws limit id bs r (rewrite b id q.bytes o)
  unfolding rewrite IsRead IsAppended
  rewrite-IsAppended limit id bs r q (v, no_session) h e fits = h
  rewrite-IsAppended limit id bs r q (v, unreadable) h e fits = tt
  rewrite-IsAppended limit id bs r q (v, contents existing) h e fits =
      put-IsAppended limit id bs (existing ++ q.bytes) r (b.put v (key id) (existing ++ q.bytes)).0
        (b.put v (key id) (existing ++ q.bytes)).1 (ap₂ (λ x y. x ++ y) h e)
        (laws.put_stages v (key id) (existing ++ q.bytes)) fits

  refused_chunk :
      (limit : ℕ) (w : W) (id : Text) (q : Body) (stored : ℕ)
      → q.broken ≡ false
      → over b limit (stored + length q.bytes) ≡ true
      → append_whole b w id q stored limit ≡ (w, too_large)
  unfolding append_whole
  refused_chunk limit w id q stored f t = rw (f, t, append_whole) refl

  pub whole-IsAppended :
      (limit : ℕ) (w : W) (id : Text) (bs : Bytes) (r q : Body) (stored : ℕ)
      → b.appendable ≡ false
      → Holds b staged laws w id bs stored
      → Cut b staged laws limit stored r q
      → IsAppended b staged laws limit id bs r (append_whole b w id q stored limit)
  unfolding append_whole IsAppended
  whole-IsAppended limit w id bs r q stored plain h c = elim (Bool-cases q.broken) [
    | inl t ↦ rw (t, IsAppended) tt
    | inr f ↦ elim (Bool-cases (over b limit (stored + length q.bytes))) [
      | inl t ↦
          let (pos, past) = chunk_past b staged laws limit stored r q c t in
          subst (IsAppended b staged laws limit id bs r)
            (sym (refused_chunk limit w id q stored f t))
            (pos, inr (subst (λ k. limit < k + length r.bytes) h.1 past), h.0)
      | inr g ↦
          let (same, fits) =
            whole_chunk b staged laws limit stored (stored + length q.bytes) r q c refl g in
          let room =
            subst (λ l. (limit ≡ 0) ⊎ (l ≤ limit)) (ap₂ (λ x y. x + length y) h.1 same) fits in
          rw (f, g)
            (rewrite-IsAppended limit id bs r q (open_session b w id)
              (open_session-IsRead w id bs plain h.0) same room)
    ]
  ]
