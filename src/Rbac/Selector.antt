-- ===== src/Rbac/Selector.antt =====
-- The evaluation of content-selector expressions in internal/service/rbac_service.go.
pub mod Printed
pub mod Negated
pub mod Known
use nexspence_demo.Prelude.{
  Bool, Option, Text, codes, drop, eq_text, false, has_prefix, if◌then◌else◌, index, last_index,
  leb, none, some, take, trim_space, true, ℕ, ◌&&◌, ◌+◌, ◌-◌,
}

-- expr[from:to]
unfoldable pub slice : Text → ℕ → ℕ → Text
slice s from to = take (to - from) (drop from s)

-- What stands between the first and the last quote; `none` where `s < 0 || e <= s`.
unfoldable pub quoted : Text → Option Text
unfolding index last_index slice
quoted expr = elim (index expr (codes "\"")) [
  | none ↦ none
  | some s ↦ elim (last_index expr (codes "\"")) [
    | none ↦ none
    | some e ↦ if leb e s then none else some (slice expr (s + 1) e)
  ]
]

unfoldable pub eval_repo_clause : Text → Text → Bool
unfolding quoted
eval_repo_clause expr repo_name = elim (quoted expr) [ none ↦ false | some q ↦ eq_text repo_name q ]

unfoldable pub eval_path_clause : Text → Text → Bool
unfolding quoted
eval_path_clause expr path = elim (quoted expr) [ none ↦ false | some q ↦ has_prefix path q ]

-- evalCEL after `expr = strings.TrimSpace(expr)`
unfoldable pub eval_trimmed : Text → Text → Text → Bool
unfolding index eval_repo_clause eval_path_clause
eval_trimmed expr repo_name path = elim (index expr (codes " && ")) [
  | some idx ↦
      eval_repo_clause (trim_space (take idx expr)) repo_name
      && eval_path_clause (trim_space (drop (idx + 4) expr)) path
  | none ↦
      if has_prefix expr (codes "repository")
      then eval_repo_clause expr repo_name
      else if has_prefix expr (codes "path")
      then eval_path_clause expr path
      else false
]

unfoldable pub eval_cel : Text → Text → Text → Bool
unfolding eval_trimmed
eval_cel expr repo_name path = eval_trimmed (trim_space expr) repo_name path

-- The part of an expression that evalCELRepoOnly looks at.
unfoldable pub first_clause : Text → Text
unfolding index
first_clause expr = elim (index expr (codes " && ")) [
  | some idx ↦ trim_space (take idx expr)
  | none ↦ expr
]

unfoldable pub eval_cel_repo_only : Text → Text → Bool
unfolding first_clause
eval_cel_repo_only expr repo_name =
    let clause = first_clause (trim_space expr) in
    if has_prefix clause (codes "repository")
    then eval_repo_clause clause repo_name
    else if has_prefix clause (codes "path")
    then true
    else false
