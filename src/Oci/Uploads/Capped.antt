-- ===== src/Oci/Uploads/Capped.antt =====
-- What a chunk does to its session, capped or not, on either kind of store.
use nexspence_demo.Oci.Uploads.Rewritten.{whole-IsAppended}
use nexspence_demo.Oci.Uploads.Streamed.{streaming-IsAppended}
use nexspence_demo.Prelude.{
  Bool, Option, Text, ap, false, if◌then◌else◌, inl, leb, leb→le, length, ltb, ltb→lt, none, not,
  refl, some, some≢none, subst, sym, true, ℕ, ◌+◌, ◌-◌, ◌∙◌, ◌≡◌, ◌≤◌,
}
use nexspence_demo.Oci.Uploads.{
  append_whole, limit_reader, append_streaming, too_large, unknown, valid_upload_id, known_size,
  append_limited, append, size, append_known, key, BlobBackend, Bytes, Body,
}
use nexspence_demo.Oci.Uploads.Staged.{IsStaging}
use nexspence_demo.Oci.Uploads.Chunks.{not_leb, limit_reader-Cut, uncut, Cut, Holds, IsAppended}

module _ {W : Type 0} (b : BlobBackend W) (staged : W → Text → Option Bytes)
    (laws : IsStaging b staged) where
  limited-IsAppended :
      (limit : ℕ) (w : W) (id : Text) (bs : Bytes) (r q : Body) (stored : ℕ)
      → Holds b staged laws w id bs stored
      → Cut b staged laws limit stored r q
      → IsAppended b staged laws limit id bs r (append_limited b w id q stored limit)
  unfolding append_limited
  limited-IsAppended limit w id bs r q stored h c = chosen b.appendable refl
    where
      chosen :
          (a : Bool)
          → b.appendable ≡ a
          → IsAppended b staged laws limit id bs r (
              if a
              then append_streaming b w id q stored limit
              else append_whole b w id q stored limit)
      chosen true e = streaming-IsAppended b staged laws limit w id bs r q stored h c
      chosen false e = whole-IsAppended b staged laws limit w id bs r q stored e h c

  full-IsAppended :
      (limit : ℕ) (w : W) (id : Text) (bs : Bytes) (r : Body) (stored : ℕ)
      → Holds b staged laws w id bs stored
      → IsAppended b staged laws limit id bs r (append_known b w id r stored limit)
  unfolding append_known IsAppended
  full-IsAppended limit w id bs r stored h = capped (ltb 0 limit) (leb limit stored) refl refl
    where
      capped :
          (c m : Bool)
          → ltb 0 limit ≡ c
          → leb limit stored ≡ m
          → IsAppended b staged laws limit id bs r (
              if c
              then if m
                then (w, too_large)
                else append_limited b w id (limit_reader r (limit - stored + 1)) stored limit
              else append_limited b w id r stored limit)
      capped false m t g =
          limited-IsAppended limit w id bs r r stored h (uncut b staged laws limit stored r)
      capped true true t g =
          (ltb→lt 0 limit t, inl (subst (λ k. limit ≤ k) h.1 (leb→le limit stored g)), h.0)
      capped true false t g =
          limited-IsAppended limit w id bs r (limit_reader r (limit - stored + 1)) stored h (
            limit_reader-Cut b staged laws limit stored r (ltb→lt 0 limit t)
              (not_leb limit stored g))

  same_length : (bs cs : Bytes) → some bs ≡ some cs → length bs ≡ length cs
  same_length bs cs e = let same : bs ≡ cs = cc in ap (λ l. length l) same

  appended_size-length :
      (w : W) (id : Text) (bs : Bytes) (n : ℕ) (o : Option (Option ℕ))
      → staged w (key id) ≡ some bs
      → b.appended_size w (key id) ≡ o
      → known_size b o ≡ some n
      → n ≡ length bs
  unfolding known_size
  appended_size-length w id bs n none h e k = absurd (some≢none (sym k))
  appended_size-length w id bs n (some m) h e k =
      let (cs, held, len) = laws.sized w (key id) n (e ∙ ap (λ x. some x) k) in
      sym len ∙ same_length cs bs (sym held ∙ h)

  size_of-length :
      (w : W) (id : Text) (bs : Bytes) (n : ℕ) (o : Option Bool)
      → b.appendable ≡ false
      → staged w (key id) ≡ some bs
      → (elim o [ none ↦ none | some there ↦ if there then b.size_of w (key id) else none ])
        ≡ some n
      → n ≡ length bs
  size_of-length w id bs n none plain h k = absurd (some≢none (sym k))
  size_of-length w id bs n (some false) plain h k = absurd (some≢none (sym k))
  size_of-length w id bs n (some true) plain h k =
      let (cs, held, len) = laws.stat w (key id) n plain k in
      sym len ∙ same_length cs bs (sym held ∙ h)

  size-length :
      (w : W) (id : Text) (bs : Bytes) (n : ℕ)
      → staged w (key id) ≡ some bs
      → size b w id ≡ some n
      → n ≡ length bs
  unfolding size
  size-length w id bs n h e = sized (not (valid_upload_id id)) b.appendable refl e
    where
      sized :
          (v a : Bool)
          → b.appendable ≡ a
          → (if v
              then none
              else if a
              then known_size b (b.appended_size w (key id))
              else elim (b.exists w (key id)) [
                | none ↦ none
                | some there ↦ if there then b.size_of w (key id) else none
              ])
            ≡ some n
          → n ≡ length bs
      sized true a q k = absurd (some≢none (sym k))
      sized false true q k = appended_size-length w id bs n (b.appended_size w (key id)) h refl k
      sized false false q k = size_of-length w id bs n (b.exists w (key id)) q h k

  -- A chunk for a session that holds some bytes, on either kind of store and for a reader of any length:
  -- if it is taken, the session holds the old bytes followed by the whole chunk, the answer is their
  -- number, and with a cap this number is not above it; if it is refused as too large, the cap was
  -- reached or the chunk would have passed it, and the session holds the old bytes still; if the session
  -- is answered to be unknown, it holds the old bytes too. Where the rollback fails, the chunk would
  -- have passed the cap. Nothing is said of what a failed rollback, or a chunk that fails for any other
  -- reason, leaves in the session.
  pub append-IsAppended :
      (limit : ℕ) (w : W) (id : Text) (bs : Bytes) (r : Body)
      → staged w (key id) ≡ some bs
      → IsAppended b staged laws limit id bs r (append b limit w id r)
  unfolding append IsAppended
  append-IsAppended limit w id bs r h = known (size b w id) refl
    where
      known :
          (o : Option ℕ)
          → size b w id ≡ o
          → IsAppended b staged laws limit id bs r
              (elim o [ none ↦ (w, unknown) | some stored ↦ append_known b w id r stored limit ])
      known none e = h
      known (some stored) e =
          full-IsAppended limit w id bs r stored (h, size-length w id bs stored h e)
