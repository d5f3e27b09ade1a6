-- ===== src/Routing.antt =====
-- internal/service/routing_rule_service.go: rules on paths and their cached regular expressions.
pub mod Verdict
use nexspence_demo.Prelude.{
  Bool, List, Option, Text, [], codes, eq_text, false, if◌then◌else◌, none, not, some, true, ◌||◌,
  ◌∷◌,
}
use nexspence_demo.Prelude.Dict
use nexspence_demo.Prelude.Dict.{Dict}
use nexspence_demo.Domain.{RoutingRule}

-- The compiledMatchers cache.
abbrev pub Cache : Type 0
Cache = Dict (Text → Bool)

pub data RuleError : Type 0 where
  name_required : RuleError
  bad_mode : RuleError
  invalid_matcher : Text → RuleError

unfoldable pub is_mode : Text → Bool
is_mode mode = eq_text mode (codes "ALLOW") || eq_text mode (codes "BLOCK")

-- `compile` is regexp.Compile: `none` for an error, and MatchString of the result.
module _ (compile : Text → Option (Text → Bool)) where
  unfoldable pub compile_matcher : Text → Cache → Option (Text → Bool) × Cache
  compile_matcher pattern cache = elim (Dict.get pattern cache) [
    | some re ↦ (some re, cache)
    | none ↦ elim (compile pattern) [
      | none ↦ (none, cache)
      | some re ↦ (some re, Dict.put pattern re cache)
    ]
  ]

  unfoldable pub matches_any : List Text → Text → Cache → Bool × Cache
  unfolding compile_matcher
  matches_any [] path cache = (false, cache)
  matches_any (m ∷ matchers) path cache =
      let (compiled, after) = compile_matcher m cache in
      let rest = matches_any matchers path after in
      elim compiled [ none ↦ rest | some re ↦ (if re path then (true, after) else rest) ]

  -- A nil rule is `none`.
  unfoldable pub allow : Option RoutingRule → Text → Cache → Bool × Cache
  unfolding matches_any
  allow none path cache = (true, cache)
  allow (some rule) path cache =
      let (matched, after) = matches_any rule.matchers path cache in
      (if eq_text rule.mode (codes "ALLOW") then (matched, after) else (not matched, after))

  unfoldable pub validate_matchers : List Text → Option RuleError
  validate_matchers [] = none
  validate_matchers (m ∷ matchers) =
      let rest = validate_matchers matchers in
      elim (compile m) [ none ↦ some (invalid_matcher m) | some re ↦ rest ]

  -- What is checked before a rule is stored: `none` where the repository's Update is called.
  unfoldable pub update_check : RoutingRule → Option RuleError
  unfolding validate_matchers is_mode
  update_check r = if not (is_mode r.mode) then some bad_mode else validate_matchers r.matchers

  -- The same for Create.
  unfoldable pub create_check : RoutingRule → Option RuleError
  unfolding validate_matchers is_mode
  create_check r =
      if eq_text r.name []
      then some name_required
      else if not (is_mode r.mode)
      then some bad_mode
      else validate_matchers r.matchers
