-- ===== src/Domain.antt =====
-- internal/domain/types.go: the records and configuration values that the components share.
-- Display-only fields (description, url, timestamps that no modelled code reads) are left out.
pub mod Redact
use nexspence_demo.Prelude.{Bool, List, Option, Text, [], codes, eq_text, none, some, ℕ, ◌||◌, ◌∷◌}
use nexspence_demo.Prelude.Dict
use nexspence_demo.Prelude.Dict.{Dict}

-- An element of a []interface{} that came out of JSON: a string, or something else.
pub data Item : Type 0 where
  text : Text → Item
  other : Item

-- A value of a map[string]any configuration, by the dynamic types that the code switches on.
-- `number` is the value of an int, an int64 or a float64 cut to an int; `untyped` is any other type.
pub data Value : Type 0 where
  str : Text → Value
  flag : Bool → Value
  number : ℕ → Value
  texts : List Text → Value
  items : List Item → Value
  untyped : Value

-- A map[string]any; `none` is the nil map.
abbrev pub Config : Type 0
Config = Option (Dict Value)

-- m[key], where a nil map has no key
unfoldable pub config_value : Config → Text → Option Value
config_value none key = none
config_value (some m) key = Dict.get key m

-- v, _ := m[key].(string)
unfoldable pub config_text : Config → Text → Text
unfolding config_value
config_text m key = elim (config_value m key) [ none ↦ [] | some v ↦ elim v [ str s ↦ s | _ ↦ [] ] ]

pub record Repository : Type 0 where
  pub id : Text
  pub name : Text
  pub format : Text
  pub kind : Text
  pub blob_store_id : Option Text
  pub online : Bool
  pub format_config : Config
  pub proxy_config : Config
  pub quota_bytes : Option ℕ
  pub routing_rule_id : Option Text
  pub allow_anonymous : Bool

unfoldable pub is_oci_registry : Text → Bool
is_oci_registry f = eq_text f (codes "docker") || eq_text f (codes "oci")

-- The non-empty strings of a []interface{}.
unfoldable pub nonempty_texts : List Item → List Text
nonempty_texts [] = []
nonempty_texts (text [] ∷ r) = nonempty_texts r
nonempty_texts (text (c ∷ s) ∷ r) = (c ∷ s) ∷ nonempty_texts r
nonempty_texts (other ∷ r) = nonempty_texts r

unfoldable pub group_member_names : Repository → List Text
unfolding config_value nonempty_texts
group_member_names r = elim (config_value r.format_config (codes "member_names")) [
  | none ↦ []
  | some v ↦ elim v [ texts l ↦ l | items l ↦ nonempty_texts l | _ ↦ [] ]
]

unfoldable pub group_writable_member : Repository → Text
unfolding config_text
group_writable_member r = config_text r.format_config (codes "writable_member")

pub record Component : Type 0 where
  pub id : Text
  pub repository_id : Text
  pub repository : Text
  pub format : Text
  pub group : Text
  pub name : Text
  pub version : Text

pub record Asset : Type 0 where
  pub id : Text
  pub component_id : Text
  pub repository : Text
  pub path : Text
  pub blob_store_id : Text
  pub blob_key : Text
  pub size_bytes : ℕ
  pub last_modified : ℕ
  pub last_downloaded : Option ℕ

pub record DockerBrowseRow : Type 0 where
  pub component_id : Text
  pub image_name : Text
  pub version : Text
  pub sample_path : Text

pub record RoutingRule : Type 0 where
  pub id : Text
  pub name : Text
  pub mode : Text
  pub matchers : List Text

pub record BlobStore : Type 0 where
  pub id : Text
  pub name : Text
  pub kind : Text
  pub config : Config
  pub quota_bytes : Option ℕ
  pub used_bytes : ℕ

-- UserStatusActive, UserSourceLocal, UserSourceLDAP
abbrev pub active : Text
active = codes "active"

abbrev pub local_source : Text
local_source = codes "local"

abbrev pub ldap_source : Text
ldap_source = codes "ldap"

pub record User : Type 0 where
  pub id : Text
  pub username : Text
  pub email : Text
  pub password_hash : Text
  pub first_name : Text
  pub last_name : Text
  pub status : Text
  pub source : Text
  pub roles : List Text
  pub must_reset_password : Bool
  pub last_login : Option ℕ
  pub tokens_valid_after : ℕ

pub record UserToken : Type 0 where
  pub id : Text
  pub user_id : Text
  pub name : Text
  pub token_hash : Text
  pub scopes : List Text
  pub last_used : Option ℕ
  pub expires_at : Option ℕ

pub record Role : Type 0 where
  pub id : Text
  pub name : Text
