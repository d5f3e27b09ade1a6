-- ===== src/Oci/Uploads/Staged.antt =====
-- What the sessions need of a blob store: the documented behaviour of its operations when they succeed.
use nexspence_demo.Prelude.{Option, Text, false, length, some, take, true, ℕ, ◌++◌, ◌+◌, ◌≡◌}
use nexspence_demo.Oci.Uploads.{BlobBackend, Bytes, Body}

-- `staged` says which bytes are held for a key, published or not.
pub record IsStaging {W : Type 0} (b : BlobBackend W) (staged : W → Text → Option Bytes)
    : Type 0 where
  pub sized :
      (w : W) (k : Text) (n : ℕ)
      → b.appended_size w k ≡ some (some n)
      → (bs : Bytes) × (staged w k ≡ some bs) × (length bs ≡ n)
  pub stat :
      (w : W) (k : Text) (n : ℕ)
      → b.appendable ≡ false
      → b.size_of w k ≡ some n
      → (bs : Bytes) × (staged w k ≡ some bs) × (length bs ≡ n)
  pub whole :
      (w : W) (k : Text) (bs : Bytes)
      → b.appendable ≡ false
      → b.get w k ≡ some bs
      → staged w k ≡ some bs
  pub put_stages :
      (w : W) (k : Text) (bs : Bytes)
      → (b.put w k bs).1 ≡ true
      → staged (b.put w k bs).0 k ≡ some bs
  pub append_grows :
      (w : W) (k : Text) (r : Body) (n : ℕ) (bs : Bytes)
      → (b.append_blob w k r).1 ≡ some n
      → staged w k ≡ some bs
      → (staged (b.append_blob w k r).0 k ≡ some (bs ++ r.bytes)) × (n ≡ length bs + length r.bytes)
  pub truncate_shrinks :
      (w : W) (k : Text) (n : ℕ) (bs : Bytes)
      → (b.truncate_blob w k n).1 ≡ true
      → staged w k ≡ some bs
      → staged (b.truncate_blob w k n).0 k ≡ some (take n bs)
