-- ===== src/Domain/Redact.antt =====
-- internal/domain/redact.go: secrets stripped from payloads.
pub mod Secrets
use nexspence_demo.Prelude.{
  List, Text, [], codes, eq_text, if◌then◌else◌, none, some, true, ◌||◌, ◌∷◌,
}
use nexspence_demo.Prelude.Dict
use nexspence_demo.Prelude.Dict.{Dict, get-put, get-remove}
use nexspence_demo.Domain.{BlobStore, Value, Config, Repository, flag, config_text}

-- The loop that copies every entry but the two keys: over an association list, two removals.
unfoldable pub without_keys : Text → Text → Dict Value → Dict Value
without_keys a b [] = []
without_keys a b ((k, v) ∷ m) =
    let rest = without_keys a b m in if eq_text k a || eq_text k b then rest else (k, v) ∷ rest

unfoldable pub redacted_config : Config → Text → Text → Config
unfolding without_keys
redacted_config none secret_key set_key = none
redacted_config (some m) secret_key set_key =
    let out = without_keys secret_key set_key m in
    some (
      if eq_text (config_text (some m) secret_key) []
      then out
      else Dict.put set_key (flag true) out)

abbrev pub proxy_password_key : Text
proxy_password_key = codes "proxy_password"

abbrev pub proxy_password_set_key : Text
proxy_password_set_key = codes "proxy_password_set"

abbrev pub remote_password_key : Text
remote_password_key = codes "remote_password"

abbrev pub remote_password_set_key : Text
remote_password_set_key = codes "remote_password_set"

unfoldable pub redacted_repository : Repository → Repository
unfolding redacted_config
redacted_repository r = record r {
  proxy_config =
      redacted_config (redacted_config r.proxy_config proxy_password_key proxy_password_set_key)
        remote_password_key remote_password_set_key;
}

unfoldable pub redacted_repositories : List Repository → List Repository
unfolding redacted_repository
redacted_repositories [] = []
redacted_repositories (r ∷ list) = redacted_repository r ∷ redacted_repositories list

abbrev pub secret_key_key : Text
secret_key_key = codes "secret_key"

abbrev pub secret_key_set_key : Text
secret_key_set_key = codes "secret_key_set"

unfoldable pub redacted_blob_store : BlobStore → BlobStore
unfolding redacted_config
redacted_blob_store bs = record bs {
  config = redacted_config bs.config secret_key_key secret_key_set_key;
}

unfoldable pub redacted_blob_stores : List BlobStore → List BlobStore
unfolding redacted_blob_store
redacted_blob_stores [] = []
redacted_blob_stores (bs ∷ list) = redacted_blob_store bs ∷ redacted_blob_stores list
