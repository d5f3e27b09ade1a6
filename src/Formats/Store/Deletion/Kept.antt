-- ===== src/Formats/Store/Deletion/Kept.antt =====
-- Blobs that a surviving asset names.
use nexspence_demo.Formats.Store.{
  size_mismatch, quota_exceeded, not_found, other_error, drop_asset, StoreError, count_key,
  drop_object, error, got, Outcome, write_used, World,
}
use nexspence_demo.Prelude.{
  Bool, Bool-cases, List, Option, Text, [], any_of, arith, eq_text, eq_text_sound, false,
  false≢true, if◌then◌else◌, inl, inr, keep_if, length, none, not, refl, some, subst, suc, sym,
  true, zero, ℕ, ◌&&◌, ◌==◌, ◌∙◌, ◌∷◌, ◌≡◌, ◌⊎◌,
}
use nexspence_demo.Domain.{Asset}
use nexspence_demo.Formats.Store.Deletion.{
  delete_found, committed, not_taken, with_blob_key_lock, commit_failed, settle, Locked, left_alone,
  LockRun, asset_by_path, store_of, unchanged, delete_reread, delete_artifact, delete_row, reclaim,
  used_name, count_by_blob_key, delete_object, decrement_usage, lower_used_bytes, is_object,
}

-- The store holds the object; some asset names the key.
unfoldable pub has_object : World → Text → Text → Bool
has_object w store key = any_of (is_object store key) w.objects

unfoldable pub is_named : World → Text → Bool
is_named w key = any_of (λ (a : Asset). eq_text a.blob_key key) w.assets

-- A key of which no other row was counted is named by no row that is left.
uncounted :
    (key id : Text) (rows : List Asset)
    → length (keep_if (λ (a : Asset). eq_text a.blob_key key && not (eq_text a.id id)) rows) ≡ 0
    → any_of
        (λ (a : Asset). eq_text a.blob_key key)
        (keep_if (λ (a : Asset). not (eq_text a.id id)) rows)
      ≡ false
uncounted key id [] h = refl
uncounted key id (a ∷ rows) h = elim (Bool-cases (eq_text a.id id)) [
  | inl t ↦ ground (arith, uncounted key id rows, t, h)
  | inr f ↦ elim (Bool-cases (eq_text a.blob_key key)) [
    | inl u ↦ ground (arith, uncounted key id rows, f, u, h)
    | inr g ↦ ground (arith, uncounted key id rows, f, g, h)
  ]
]

-- The deletion of one key leaves the objects of another.
other_key :
    (s k store key : Text) (objects : List (Text × Text))
    → eq_text k key ≡ false
    → any_of (is_object store key) (keep_if (λ o. not (is_object s k o)) objects)
      ≡ any_of (is_object store key) objects
unfolding is_object
other_key s k store key [] n = refl
other_key s k store key (o ∷ objects) n = elim (Bool-cases (eq_text o.1 k)) [
  | inr f ↦ ground (arith, other_key s k store key objects n, f)
  | inl t ↦
      let apart : eq_text o.1 key ≡ false =
        subst (λ x. eq_text x key ≡ false) (sym (eq_text_sound o.1 k t)) n in
      ground (arith, other_key s k store key objects n, t, apart)
]

-- Only counters of the stores may differ.
Same : World → World → Type 0
Same w v = (v.assets ≡ w.assets) × (v.objects ≡ w.objects)

lower_used_bytes-Same : (w : World) (name : Text) (n : ℕ) → Same w (lower_used_bytes w name n)
unfolding lower_used_bytes Same
lower_used_bytes-Same w name n = elim (Bool-cases (w.fails write_used)) [
  | inl t ↦ rw t (refl, refl)
  | inr f ↦ rw f (refl, refl)
]

decrement_usage-Same : (w : World) (a : Asset) → Same w (decrement_usage w a)
unfolding decrement_usage Same
decrement_usage-Same w a = elim (Bool-cases (a.size_bytes == 0)) [
  | inl t ↦ rw t (refl, refl)
  | inr f ↦ rw f (named (used_name w a))
]
  where
    named :
        (o : Outcome Text)
        → Same w (elim o [ error e ↦ w | got name ↦ lower_used_bytes w name a.size_bytes ])
    named (error e) = (refl, refl)
    named (got name) = lower_used_bytes-Same w name a.size_bytes

-- Every object under a key that some row names is in `v` as it was in `w`.
pub Keeps : World → World → Type 0
Keeps w v =
    (store key : Text) → is_named v key ≡ true → has_object v store key ≡ has_object w store key

Keeps-Same : (w v u : World) → Same v u → Keeps w v → Keeps w u
unfolding Same Keeps is_named has_object
Keeps-Same w v u s h store key n =
    let named : any_of (λ (a : Asset). eq_text a.blob_key key) v.assets ≡ true = rw (sym s.0) n in
    rw s.1 (h store key named)

-- The rows without the one of an asset
unfoldable pub without : World → Asset → World
without w a = record w { assets = keep_if (λ (x : Asset). not (eq_text x.id a.id)) w.assets }

counted_zero :
    (w : World) (a : Asset)
    → count_by_blob_key w a.blob_key a.id ≡ got 0
    → is_named (without w a) a.blob_key ≡ false
unfolding is_named without count_by_blob_key
counted_zero w a c = elim (Bool-cases (w.fails count_key)) [
  | inl t ↦ (let k = rw t at c in cc)
  | inr f ↦ let k = rw f at c in uncounted a.blob_key a.id w.assets cc
]

freed-Keeps :
    (w : World) (a : Asset) (s : Text)
    → count_by_blob_key w a.blob_key a.id ≡ got 0
    → Keeps w (delete_object (without w a) s a.blob_key).0
unfolding Keeps has_object is_named without delete_object
freed-Keeps w a s c store key = by_failure (w.fails drop_object)
  where
    left : World
    left = record (without w a) {
      objects = keep_if (λ o. not (is_object s a.blob_key o)) w.objects;
    }

    after : Bool → World × Bool
    after b = if b then (without w a, false) else (left, true)

    by_failure :
        (b : Bool)
        → is_named (after b).0 key ≡ true
        → has_object (after b).0 store key ≡ has_object w store key
    by_failure true n = refl
    by_failure false n = elim (Bool-cases (eq_text a.blob_key key)) [
      | inl u ↦
          let same : a.blob_key ≡ key = eq_text_sound a.blob_key key u in
          let none_left = subst (λ k. is_named (without w a) k ≡ false) same (counted_zero w a c) in
          absurd (false≢true (sym none_left ∙ n))
      | inr v ↦ other_key s a.blob_key store key w.objects v
    ]

-- The rest of the deletion: named objects are kept, and only a failed commit answers with an error
-- after a change, which is then to the rows and the objects alone.
pub IsSafe : LockRun → World → World → Option StoreError → Type 0
IsSafe lock w v e =
    Keeps w v × ((e ≡ none) ⊎ (v ≡ w) ⊎ ((lock ≡ commit_failed) × (v.stores ≡ w.stores)))

-- What runs under the lock keeps the named objects and the stores' rows, and an error of its own changed
-- nothing.
IsKept : World → Locked → Type 0
IsKept w r = Keeps w r.world × (r.world.stores ≡ w.stores) × ((r.result ≡ none) ⊎ (r.world ≡ w))

untouched : (w : World) (e : Option StoreError) → IsKept w (left_alone w e)
unfolding IsKept Keeps left_alone
untouched w e = (λ store key n. refl, refl, inr refl)

freed-stores : (w : World) (s k : Text) → (delete_object w s k).0.stores ≡ w.stores
unfolding delete_object
freed-stores w s k = elim (Bool-cases (w.fails drop_object)) [
  | inl t ↦ rw t refl
  | inr f ↦ rw f refl
]

reclaim-IsKept :
    (w : World) (a : Asset) (s : Text) (o : Outcome ℕ)
    → count_by_blob_key w a.blob_key a.id ≡ o
    → IsKept w (reclaim (without w a) a s o)
unfolding reclaim Keeps without has_object IsKept
reclaim-IsKept w a s (error e) c = (λ store key n. refl, refl, inl refl)
reclaim-IsKept w a s (got (suc k)) c = (λ store key n. refl, refl, inl refl)
reclaim-IsKept w a s (got zero) c =
    (freed-Keeps w a s c, freed-stores (without w a) s a.blob_key, inl refl)

delete_row-IsKept : (w : World) (a : Asset) (s : Text) → IsKept w (delete_row w a s)
unfolding delete_row without left_alone
delete_row-IsKept w a s = elim (Bool-cases (w.fails drop_asset)) [
  | inl t ↦ rw t (untouched w (some other_error))
  | inr f ↦ rw f (reclaim-IsKept w a s (count_by_blob_key w a.blob_key a.id) refl)
]

delete_reread-IsKept :
    (w : World) (a : Asset) (s : Text) (o : Outcome Asset) → IsKept w (delete_reread w a s o)
unfolding delete_reread
delete_reread-IsKept w a s (error not_found) = untouched w none
delete_reread-IsKept w a s (error quota_exceeded) = untouched w (some quota_exceeded)
delete_reread-IsKept w a s (error size_mismatch) = untouched w (some size_mismatch)
delete_reread-IsKept w a s (error other_error) = untouched w (some other_error)
delete_reread-IsKept w a s (got cur) = by_change (unchanged cur a)
  where
    by_change : (b : Bool) → IsKept w (if b then delete_row w a s else left_alone w none)
    by_change true = delete_row-IsKept w a s
    by_change false = untouched w none

settle-IsSafe :
    (lock : LockRun) (w : World) (a : Asset) (v : World) (o : Option StoreError) (freed : Bool)
    → IsKept w (record { world = v; result = o; freed = freed })
    → let r =
        settle a (with_blob_key_lock lock w (record { world = v; result = o; freed = freed })) in
      IsSafe lock w r.0 r.1
unfolding settle with_blob_key_lock IsSafe IsKept Keeps
settle-IsSafe not_taken w a v o freed h = (λ store key n. refl, inr (inl refl))
settle-IsSafe committed w a v none true h =
    (Keeps-Same w v (decrement_usage v a) (decrement_usage-Same v a) h.0, inl refl)
settle-IsSafe committed w a v none false h = (h.0, inl refl)
settle-IsSafe committed w a v (some e) freed h =
    (h.0, elim h.2 [ inl q ↦ inl q | inr q ↦ inr (inl q) ])
settle-IsSafe commit_failed w a v none freed h = (h.0, inr (inr (refl, h.1)))
settle-IsSafe commit_failed w a v (some e) freed h = (h.0, inr (inr (refl, h.1)))

delete_found-IsSafe :
    (lock : LockRun) (before w : World) (repo path : Text) (o : Outcome Asset)
    → IsSafe lock w
        (delete_found lock before w repo path o).0
        (delete_found lock before w repo path o).1
unfolding delete_found IsSafe Keeps
delete_found-IsSafe lock before w repo path (error not_found) = (λ store key n. refl, inl refl)
delete_found-IsSafe lock before w repo path (error quota_exceeded) =
    (λ store key n. refl, inr (inl refl))
delete_found-IsSafe lock before w repo path (error size_mismatch) =
    (λ store key n. refl, inr (inl refl))
delete_found-IsSafe lock before w repo path (error other_error) =
    (λ store key n. refl, inr (inl refl))
delete_found-IsSafe lock before w repo path (got a) =
    let r = delete_reread w a (store_of before a) (asset_by_path w repo path) in
    settle-IsSafe lock w a r.world r.result r.freed
      (delete_reread-IsKept w a (store_of before a) (asset_by_path w repo path))

-- After a deletion, whichever of its statements fail and whether or not its lock is taken and its
-- transaction commits, every object whose key some row still names is in its store exactly if it was
-- there before, also when other requests changed the tables between the deletion's first read and its
-- lock. A deletion that answers with an error changed nothing, unless it was the commit that failed:
-- then no row of a store, hence no counter of used bytes, was changed.
pub delete_artifact-keeps :
    (lock : LockRun) (before w : World) (repo path store key : Text)
    → is_named (delete_artifact lock before w repo path).0 key ≡ true
    → (has_object (delete_artifact lock before w repo path).0 store key ≡ has_object w store key)
      × (((delete_artifact lock before w repo path).1 ≡ none)
          ⊎ ((delete_artifact lock before w repo path).0 ≡ w)
          ⊎ ((lock ≡ commit_failed)
              × ((delete_artifact lock before w repo path).0.stores ≡ w.stores)))
unfolding delete_artifact IsSafe Keeps
delete_artifact-keeps lock before w repo path store key n =
    let (kept, safe) =
      delete_found-IsSafe lock before w repo path (asset_by_path before repo path) in
    (kept store key n, safe)
