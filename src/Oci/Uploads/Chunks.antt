-- ===== src/Oci/Uploads/Chunks.antt =====
-- What a chunk may do to its session, and the part of it that a capped reader gives.
use nexspence_demo.Prelude.{
  Bool-cases, Option, Text, [], ap, arith, false, inl, inr, leb, leb→le, length, length-take, ltb,
  refl, some, suc, take, true, zero, ℕ, ◌&&◌, ◌++◌, ◌+◌, ◌-◌, ◌<◌, ◌∷◌, ◌≡◌, ◌≤◌, ◌⊎◌,
}
use nexspence_demo.Oci.Uploads.{
  too_large, not_rolled_back, failed, unknown, grown, limit_reader, Appended, over, key,
  BlobBackend, Bytes, Body,
}
use nexspence_demo.Oci.Uploads.Staged.{IsStaging}

take_all : (n : ℕ) (xs : Bytes) → length xs ≤ n → take n xs ≡ xs
take_all zero [] h = refl
take_all zero (x ∷ xs) h = absurd (omega arith)
take_all (suc n) [] h = refl
take_all (suc n) (x ∷ xs) h = ap (λ t. x ∷ t) (take_all n xs (omega arith))

pub take_front : (xs ys : Bytes) → take (length xs) (xs ++ ys) ≡ xs
take_front [] ys = refl
take_front (x ∷ xs) ys = ap (λ t. x ∷ t) (take_front xs ys)

pub not_leb : (a c : ℕ) → leb a c ≡ false → c < a
not_leb a c h = ground (arith, h)

within : (limit n : ℕ) → (ltb 0 limit && ltb limit n) ≡ false → (limit ≡ 0) ⊎ (n ≤ limit)
within zero n h = inl refl
within (suc limit) n h = inr (ground (arith, h))

module _ {W : Type 0} (b : BlobBackend W) (staged : W → Text → Option Bytes)
    (laws : IsStaging b staged) where
  -- After a chunk: a session that has grown holds the old bytes and the whole chunk, within the cap,
  -- and a refused one holds the old bytes.
  abbrev pub Grew : ℕ → Text → Bytes → Body → ℕ → W → Type 0
  Grew limit id bs r n w =
      (staged w (key id) ≡ some (bs ++ r.bytes))
      × (n ≡ length bs + length r.bytes)
      × ((limit ≡ 0) ⊎ (n ≤ limit))

  -- What each answer to a chunk says; of a session whose chunk failed for another reason than the cap
  -- nothing is said.
  unfoldable pub IsAppended : ℕ → Text → Bytes → Body → W × Appended → Type 0
  IsAppended limit id bs r (v, unknown) = staged v (key id) ≡ some bs
  IsAppended limit id bs r (v, failed) = Unit
  IsAppended limit id bs r (v, not_rolled_back) = (0 < limit) × (limit < length bs + length r.bytes)
  IsAppended limit id bs r (v, too_large) =
      (0 < limit)
      × ((limit ≤ length bs) ⊎ (limit < length bs + length r.bytes))
      × (staged v (key id) ≡ some bs)
  IsAppended limit id bs r (v, grown n) = Grew limit id bs r n v

  -- The body that is read: all of it, or more of it than the cap leaves room for.
  unfoldable pub Cut : ℕ → ℕ → Body → Body → Type 0
  Cut limit stored r q =
      (q.bytes ≡ r.bytes)
      ⊎ ((0 < limit) × (limit < stored + length q.bytes) × (length q.bytes ≤ length r.bytes))

  pub limit_reader-Cut :
      (limit stored : ℕ) (r : Body)
      → 0 < limit
      → stored < limit
      → Cut limit stored r (limit_reader r (limit - stored + 1))
  unfolding limit_reader Cut
  limit_reader-Cut limit stored r pos room =
      elim (Bool-cases (leb (length r.bytes) (limit - stored + 1))) [
        | inl t ↦ inl (take_all (limit - stored + 1) r.bytes (leb→le _ _ t))
        | inr f ↦
            let len = length-take (limit - stored + 1) r.bytes in
            inr (pos, omega (arith, len, not_leb _ _ f), omega (arith, len))
      ]

  pub whole_chunk :
      (limit stored n : ℕ) (r q : Body)
      → Cut limit stored r q
      → n ≡ stored + length q.bytes
      → over b limit n ≡ false
      → (q.bytes ≡ r.bytes) × ((limit ≡ 0) ⊎ (n ≤ limit))
  unfolding Cut over
  whole_chunk limit stored n r q (inl e) h f = (e, within limit n f)
  whole_chunk limit stored n r q (inr (pos, past, c)) h f = absurd (ground (arith, pos, past, h, f))

  pub chunk_past :
      (limit stored : ℕ) (r q : Body)
      → Cut limit stored r q
      → over b limit (stored + length q.bytes) ≡ true
      → (0 < limit) × (limit < stored + length r.bytes)
  unfolding Cut over
  chunk_past limit stored r q (inl e) t =
      let l = ap (λ x. length x) e in (ground (arith, t), ground (arith, t, l))
  chunk_past limit stored r q (inr (pos, past, c)) t = (pos, omega (arith, past, c))

  pub uncut : (limit stored : ℕ) (r : Body) → Cut limit stored r r
  unfolding Cut
  uncut limit stored r = inl refl

  -- The session before a chunk: its bytes, and their number as append has it.
  abbrev pub Holds : W → Text → Bytes → ℕ → Type 0
  Holds w id bs stored = (staged w (key id) ≡ some bs) × (stored ≡ length bs)
