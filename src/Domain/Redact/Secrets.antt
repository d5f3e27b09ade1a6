-- ===== src/Domain/Redact/Secrets.antt =====
-- A redacted configuration tells whether a secret is stored, and nothing else of it.
use nexspence_demo.Prelude.{
  Bool, List, Option, Text, [], ap, ap₂, arith, eq_text, eq_text_iff, false, if◌then◌else◌, map,
  none, refl, set, some, true, ◌&&◌, ◌||◌, ◌∙◌, ◌∷◌, ◌≡◌,
}
use nexspence_demo.Prelude.Dict
use nexspence_demo.Prelude.Dict.{Dict, get-put}
use nexspence_demo.Domain.{BlobStore, Value, Config, Repository, flag, config_value, config_text}
use nexspence_demo.Domain.Redact.{
  secret_key_key, secret_key_set_key, redacted_blob_stores, without_keys, redacted_config,
  redacted_repository, proxy_password_key, proxy_password_set_key, remote_password_key,
  remote_password_set_key,
}

get-without_keys :
    (a b k : Text) (m : Dict Value)
    → Dict.get k (without_keys a b m) ≡ (if eq_text k a || eq_text k b then none else Dict.get k m)
unfolding without_keys Dict.get
get-without_keys a b k [] = ground arith
get-without_keys a b k ((j, v) ∷ m) = ground (
  arith,
  get-without_keys a b k m,
  eq_text_iff j k,
  eq_text_iff j a,
  eq_text_iff j b,
  eq_text_iff k a,
  eq_text_iff k b,
)

-- What is left of a configuration under each key.
pub config_value-redacted_config :
    (m : Config) (secret set k : Text)
    → eq_text secret set ≡ false
    → config_value (redacted_config m secret set) k ≡ (
        if eq_text k secret
        then none
        else if eq_text k set
        then (if eq_text (config_text m secret) [] then none else some (flag true))
        else config_value m k)
unfolding redacted_config config_text eq_text
config_value-redacted_config none secret set k ne = ground arith
config_value-redacted_config (some m) secret set k ne = ground (
  arith,
  get-without_keys secret set k m,
  get-put set k (flag true) (without_keys secret set m),
  eq_text_iff set k,
  eq_text_iff k set,
  eq_text_iff k secret,
  eq_text_iff secret set,
  ne,
)

config_text-congr :
    (a b : Config) (k : Text)
    → config_value a k ≡ config_value b k
    → config_text a k ≡ config_text b k
unfolding config_text
config_text-congr a b k h = ground (arith, h)

apart : (k a b : Text) → eq_text a b ≡ false → (eq_text k a && eq_text k b) ≡ false
apart k a b ne = ground (arith, eq_text_iff k a, eq_text_iff k b, eq_text_iff a b, ne)

-- The two redactions one after the other, read at one key.
reordered :
    (a b c d : Bool) (x y z : Option Value)
    → (c && b) ≡ false
    → (if a then none else if c then x else if b then none else if d then y else z)
      ≡ (if a || b then none else if c then x else if d then y else z)
reordered a b c d x y z h = ground arith

-- A redacted repository holds neither password, whatever its proxy configuration. Each marker stands
-- there, with the value true, exactly if the configuration held a non-empty string as the password;
-- every other entry is as it was.
pub redacted_repository-hides :
    (r : Repository) (k : Text)
    → config_value (redacted_repository r).proxy_config k ≡ (
        if eq_text k remote_password_key || eq_text k proxy_password_key
        then none
        else if eq_text k remote_password_set_key
        then (if eq_text (config_text r.proxy_config remote_password_key) []
            then none
            else some (flag true))
        else if eq_text k proxy_password_set_key
        then (if eq_text (config_text r.proxy_config proxy_password_key) []
            then none
            else some (flag true))
        else config_value r.proxy_config k)
unfolding redacted_repository eq_text
redacted_repository-hides r k =
    let m = r.proxy_config in
    let inner = redacted_config m proxy_password_key proxy_password_set_key in
    let same : config_text inner remote_password_key ≡ config_text m remote_password_key =
      config_text-congr inner m remote_password_key (
        config_value-redacted_config m proxy_password_key proxy_password_set_key remote_password_key
          refl) in
    config_value-redacted_config inner remote_password_key remote_password_set_key k refl
    ∙ rw (same, config_value-redacted_config m proxy_password_key proxy_password_set_key k refl)
        (reordered (eq_text k remote_password_key) (eq_text k proxy_password_key)
          (eq_text k remote_password_set_key) (eq_text k proxy_password_set_key) _ _ _
          (apart k remote_password_set_key proxy_password_key refl))

-- In a list of redacted blob stores none holds the S3 secret key. The marker stands there, with the
-- value true, exactly if the store held a non-empty string as the key; the order, the names and every
-- other entry of the configurations are as they were.
pub redacted_blob_stores-hides :
    (list : List BlobStore) (k : Text)
    → (map (λ (bs : BlobStore). config_value bs.config k) (redacted_blob_stores list)
        ≡ map
            (λ (bs : BlobStore).
              if eq_text k secret_key_key
              then none
              else if eq_text k secret_key_set_key
              then (if eq_text (config_text bs.config secret_key_key) []
                  then none
                  else some (flag true))
              else config_value bs.config k)
            list)
      × (map (λ (bs : BlobStore). bs.name) (redacted_blob_stores list)
          ≡ map (λ (bs : BlobStore). bs.name) list)
unfolding redacted_blob_stores eq_text
redacted_blob_stores-hides [] k = (refl, refl)
redacted_blob_stores-hides (bs ∷ list) k =
    let (values, names) = redacted_blob_stores-hides list k in
    (
      ap₂ (λ x xs. x ∷ xs)
          (config_value-redacted_config bs.config secret_key_key secret_key_set_key k refl) values,
      ap (λ xs. bs.name ∷ xs) names,
    )
