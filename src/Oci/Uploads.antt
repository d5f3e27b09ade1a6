-- ===== src/Oci/Uploads.antt =====
-- internal/formats/oci/uploads.go: upload sessions staged in the default blob store, behind the
-- interfaces BlobStore and AppendableBlobStore of internal/storage/storage.go.
pub mod Staged
pub mod Chunks
pub mod Streamed
pub mod Rewritten
pub mod Capped
use nexspence_demo.Prelude.{
  Bool, List, Option, Text, [], codes, false, if◌then◌else◌, leb, length, ltb, none, not, some,
  take, true, ℕ, ◌&&◌, ◌++◌, ◌+◌, ◌-◌, ◌==◌, ◌||◌, ◌∷◌,
}

abbrev pub Bytes : Type 0
Bytes = List ℕ

-- What an io.Reader yields, and whether it ends in an error.
pub record Body : Type 0 where
  pub bytes : Bytes
  pub broken : Bool

-- A blob store over worlds W; `appendable` says whether it has the append extension. An operation
-- gives the world after it, and none or false for an error.
pub record BlobBackend (W : Type 0) : Type 0 where
  pub put : W → Text → Bytes → W × Bool
  pub get : W → Text → Option Bytes
  pub exists : W → Text → Option Bool
  pub size_of : W → Text → Option ℕ
  pub delete : W → Text → W
  pub appendable : Bool
  pub append_blob : W → Text → Body → W × Option ℕ
  pub truncate_blob : W → Text → ℕ → W × Bool
  pub appended_size : W → Text → Option (Option ℕ)
  pub finalize_append : W → Text → W × Bool
  pub abort_append : W → Text → W

abbrev pub upload_key_prefix : Text
upload_key_prefix = codes "_uploads/docker/"

-- hex.DecodeString's digits
unfoldable pub is_hex_digit : ℕ → Bool
is_hex_digit c = (leb 48 c && leb c 57) || (leb 97 c && leb c 102) || (leb 65 c && leb c 70)

unfoldable pub all_hex : Text → Bool
unfolding is_hex_digit
all_hex [] = true
all_hex (c ∷ s) = is_hex_digit c && all_hex s

unfoldable pub valid_upload_id : Text → Bool
unfolding all_hex
valid_upload_id id = length id == 32 && all_hex id

unfoldable pub key : Text → Text
key id = upload_key_prefix ++ id

-- io.LimitReader(r, n): an error after n bytes is never read.
unfoldable pub limit_reader : Body → ℕ → Body
limit_reader r n = record { bytes = take n r.bytes; broken = r.broken && ltb (length r.bytes) n }

-- What append returns: unknown is ok == false, too_large is errUploadTooLarge, and not_rolled_back
-- that error with the failure of the rollback.
pub data Appended : Type 0 where
  unknown : Appended
  too_large : Appended
  not_rolled_back : Appended
  failed : Appended
  grown : ℕ → Appended

-- The answer of open and read: no session, an error, or the bytes.
pub data Opened : Type 0 where
  no_session : Opened
  unreadable : Opened
  contents : Bytes → Opened

module _ {W : Type 0} (b : BlobBackend W) where
  -- create; `id` is none when crypto/rand fails
  unfoldable pub create : W → Option Text → W × Option Text
  unfolding key
  create w none = (w, none)
  create w (some id) = let r = b.put w (key id) [] in (r.0, if r.1 then some id else none)

  -- AppendedSize, where an error and a missing session are both unknown
  unfoldable pub known_size : Option (Option ℕ) → Option ℕ
  known_size none = none
  known_size (some n) = n

  unfoldable pub size : W → Text → Option ℕ
  unfolding valid_upload_id key known_size
  size w id =
      if not (valid_upload_id id)
      then none
      else if b.appendable
      then known_size (b.appended_size w (key id))
      else elim (b.exists w (key id)) [
        | none ↦ none
        | some there ↦ if there then b.size_of w (key id) else none
      ]

  unfoldable pub fetched : W → Text → W × Opened
  unfolding key
  fetched w id = (w, elim (b.get w (key id)) [ none ↦ unreadable | some bs ↦ contents bs ])

  unfoldable pub open_session : W → Text → W × Opened
  unfolding size fetched
  open_session w id = elim (size w id) [
    | none ↦ (w, no_session)
    | some n ↦
        if b.appendable
        then (let r = b.finalize_append w (key id) in
            if r.1 then fetched r.0 id else (r.0, unreadable))
        else fetched w id
  ]

  -- r == limit == 0 means no cap
  unfoldable pub over : ℕ → ℕ → Bool
  over limit n = ltb 0 limit && ltb limit n

  -- The rollback of a chunk that crossed the cap.
  unfoldable pub roll_back : W × Bool → W × Appended
  roll_back (w, true) = (w, too_large)
  roll_back (w, false) = (w, not_rolled_back)

  unfoldable pub settled : Text → ℕ → ℕ → W × Option ℕ → W × Appended
  unfolding over key roll_back
  settled id stored limit (w, none) = (w, failed)
  settled id stored limit (w, some total) =
      if over limit total then roll_back (b.truncate_blob w (key id) stored) else (w, grown total)

  unfoldable pub append_streaming : W → Text → Body → ℕ → ℕ → W × Appended
  unfolding settled key
  append_streaming w id r stored limit = settled id stored limit (b.append_blob w (key id) r)

  -- Put of the session with the chunk behind it.
  unfoldable pub rewrite : Text → Bytes → W × Opened → W × Appended
  unfolding key
  rewrite id chunk (w, no_session) = (w, unknown)
  rewrite id chunk (w, unreadable) = (w, failed)
  rewrite id chunk (w, contents existing) =
      let r = b.put w (key id) (existing ++ chunk) in
      (r.0, if r.1 then grown (length (existing ++ chunk)) else failed)

  unfoldable pub append_whole : W → Text → Body → ℕ → ℕ → W × Appended
  unfolding over rewrite open_session
  append_whole w id r stored limit =
      if r.broken
      then (w, failed)
      else if over limit (stored + length r.bytes)
      then (w, too_large)
      else rewrite id r.bytes (open_session w id)

  unfoldable pub append_limited : W → Text → Body → ℕ → ℕ → W × Appended
  unfolding append_streaming append_whole
  append_limited w id r stored limit =
      if b.appendable
      then append_streaming w id r stored limit
      else append_whole w id r stored limit

  -- append on a known session
  unfoldable pub append_known : W → Text → Body → ℕ → ℕ → W × Appended
  unfolding append_limited limit_reader
  append_known w id r stored limit =
      if ltb 0 limit
      then if leb limit stored
        then (w, too_large)
        else append_limited w id (limit_reader r (limit - stored + 1)) stored limit
      else append_limited w id r stored limit

  -- `limit` is MaxUploadBytes
  unfoldable pub append : ℕ → W → Text → Body → W × Appended
  unfolding append_known size
  append limit w id r = elim (size w id) [
    | none ↦ (w, unknown)
    | some stored ↦ append_known w id r stored limit
  ]

  unfoldable pub remove : W → Text → W
  unfolding valid_upload_id key
  remove w id =
      if not (valid_upload_id id)
      then w
      else if b.appendable
      then b.delete (b.abort_append w (key id)) (key id)
      else b.delete w (key id)
