-- ===== src/Rbac/Path.antt =====
-- assetSamplePath of internal/service/rbac_service.go: OCI paths to image-namespace paths.
use nexspence_demo.Prelude.{
  Option, Text, codes, cut_prefix, eq_text, if◌then◌else◌, last_index, ltb, none, not, some, take,
  trim_prefix, ℕ, ◌++◌,
}

-- `last` and `lastKw` of the keyword loop; `none` is -1.
abbrev pub Last : Type 0
Last = Option (ℕ × Text)

-- One round of the loop: `if idx > last`.
unfoldable pub later_keyword : Text → Last → Text → Last
later_keyword rest last kw = elim (last_index rest kw) [
  | none ↦ last
  | some idx ↦ elim last [
    | none ↦ some (idx, kw)
    | some (l, k) ↦ if ltb l idx then some (idx, kw) else some (l, k)
  ]
]

unfoldable pub last_keyword : Text → Last
unfolding later_keyword
last_keyword rest =
    later_keyword rest
      (later_keyword rest (later_keyword rest none (codes "/manifests/")) (codes "/blobs/"))
      (codes "/tags/")

-- The stored shape: the keyword and the trailing reference are cut.
unfoldable pub stored_image : Text → Text → Text → Text
stored_image p rest kw = elim (last_index (trim_prefix rest kw) (codes "/")) [
  | none ↦ p
  | some idx ↦ if ltb 0 idx then codes "/" ++ (take idx (trim_prefix rest kw) ++ codes "/") else p
]

-- The switch on `last`.
unfoldable pub sample_of : Text → Text → Last → Text
unfolding stored_image
sample_of p rest none = p
sample_of p rest (some (last, kw)) =
    if ltb 0 last
    then take last rest ++ codes "/"
    else if not (eq_text kw (codes "/tags/"))
    then stored_image p rest kw
    else p

-- `rest`: the path without a leading "/v2"
unfoldable pub without_v2 : Text → Text
without_v2 p = elim (cut_prefix p (codes "/v2/")) [ none ↦ p | some r ↦ codes "/" ++ r ]

unfoldable pub asset_sample_path : Text → Text
unfolding last_keyword sample_of without_v2
asset_sample_path p = sample_of p (without_v2 p) (last_keyword (without_v2 p))
