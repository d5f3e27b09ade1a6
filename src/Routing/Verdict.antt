-- ===== src/Routing/Verdict.antt =====
-- A rule's verdict does not depend on what the cache holds.
use nexspence_demo.Prelude.{
  All, Bool, Bool-cases, List, Option, Text, [], any_of, ap, arith, codes, eq_text, eq_text_iff,
  false, if◌then◌else◌, inl, inr, none, not, refl, some, some≢none, sym, true, ◌||◌, ◌∙◌, ◌∷◌, ◌≡◌,
}
use nexspence_demo.Prelude.Dict
use nexspence_demo.Prelude.Dict.{Dict, get-put}
use nexspence_demo.Domain.{RoutingRule}
use nexspence_demo.Routing.{
  invalid_matcher, Cache, RuleError, compile_matcher, matches_any, allow, validate_matchers,
  is_mode, create_check,
}

module _ (compile : Text → Option (Text → Bool)) where
  -- Whatever the cache holds for a pattern is what compiling it gives.
  abbrev pub IsCoherent : Cache → Type 0
  IsCoherent cache =
      (k : Text) (re : Text → Bool) → Dict.get k cache ≡ some re → compile k ≡ some re

  unfoldable pub matches : Text → Text → Bool
  matches path m = elim (compile m) [ none ↦ false | some re ↦ re path ]

  IsCoherent-put :
      (cache : Cache) (m : Text) (re : Text → Bool)
      → IsCoherent cache
      → compile m ≡ some re
      → IsCoherent (Dict.put m re cache)
  IsCoherent-put cache m re ok e k f h =
      ground (arith, get-put m k re cache, eq_text_iff m k, ok k f)

  compile_matcher-compile :
      (m : Text) (cache : Cache)
      → IsCoherent cache
      → ((compile_matcher compile m cache).0 ≡ compile m)
        × IsCoherent (compile_matcher compile m cache).1
  unfolding compile_matcher
  compile_matcher-compile m cache ok = answer (Dict.get m cache) (compile m) refl refl
    where
      answer :
          (found compiled : Option (Text → Bool))
          → Dict.get m cache ≡ found
          → compile m ≡ compiled
          → let r : Option (Text → Bool) × Cache = elim found [
            | some re ↦ (some re, cache)
            | none ↦ elim compiled [
              | none ↦ (none, cache)
              | some re ↦ (some re, Dict.put m re cache)
            ]
          ] in
            (r.0 ≡ compile m) × IsCoherent r.1
      answer (some re) compiled f c = (sym (ok m re f), ok)
      answer none none f c = (sym c, ok)
      answer none (some re) f c = (sym c, IsCoherent-put cache m re ok c)

  matches_compiled :
      (m path : Text) (c : Option (Text → Bool))
      → c ≡ compile m
      → matches path m ≡ elim c [ none ↦ false | some re ↦ re path ]
  unfolding matches
  matches_compiled m path c e =
      ap (λ (o : Option (Text → Bool)). elim o as (λ _. Bool) [ none ↦ false | some re ↦ re path ])
        (sym e)

  matches_step :
      (m path : Text) (more : Bool) (c : Option (Text → Bool)) (after : Cache) (rest : Bool × Cache)
      → c ≡ compile m
      → IsCoherent after
      → (rest.0 ≡ more) × IsCoherent rest.1
      → let r : Bool × Cache = elim c [
        | none ↦ rest
        | some re ↦ if◌then◌else◌ (re path) (true, after) rest
      ] in
        (r.0 ≡ (matches path m || more)) × IsCoherent r.1
  matches_step m path more none after rest e ok ih =
      (ih.0 ∙ rw (matches_compiled m path none e), ih.1)
  matches_step m path more (some re) after rest e ok ih = elim (Bool-cases (re path)) [
    | inl t ↦ rw (matches_compiled m path (some re) e, t) (refl, ok)
    | inr f ↦ rw (matches_compiled m path (some re) e, f) ih
  ]

  matches_any-any_of :
      (ms : List Text) (path : Text) (cache : Cache)
      → IsCoherent cache
      → ((matches_any compile ms path cache).0 ≡ any_of (matches path) ms)
        × IsCoherent (matches_any compile ms path cache).1
  unfolding matches_any
  matches_any-any_of [] path cache ok = (refl, ok)
  matches_any-any_of (m ∷ ms) path cache ok =
      let (same, after) = compile_matcher-compile m cache ok in
      let ih = matches_any-any_of ms path (compile_matcher compile m cache).1 after in
      matches_step m path (any_of (matches path) ms) (compile_matcher compile m cache).0
        (compile_matcher compile m cache).1
        (matches_any compile ms path (compile_matcher compile m cache).1) same after ih

  -- With a cache that holds nothing but what compiling gives, an ALLOW rule lets a path through exactly
  -- if one of the matchers that compile matches it, and any other rule exactly if none does; the cache
  -- stays of that kind.
  pub allow-any_of :
      (rule : RoutingRule) (path : Text) (cache : Cache)
      → IsCoherent cache
      → ((allow compile (some rule) path cache).0 ≡ (
          if eq_text rule.mode (codes "ALLOW")
          then any_of (matches path) rule.matchers
          else not (any_of (matches path) rule.matchers)))
        × IsCoherent (allow compile (some rule) path cache).1
  unfolding allow
  allow-any_of rule path cache ok =
      let (same, after) = matches_any-any_of rule.matchers path cache ok in
      elim (Bool-cases (eq_text rule.mode (codes "ALLOW"))) [
        | inl allowing ↦ rw allowing (same, after)
        | inr blocking ↦ rw blocking (ap not same, after)
      ]

  validate_step :
      (m : Text) (c : Option (Text → Bool)) (rest : Option RuleError)
      → compile m ≡ c
      → let r : Option RuleError = elim c [ none ↦ some (invalid_matcher m) | some re ↦ rest ] in
        r ≡ none → ((re : Text → Bool) × (compile m ≡ some re)) × (rest ≡ none)
  validate_step m none rest e h = absurd (some≢none h)
  validate_step m (some re) rest e h = ((re, e), h)

  validate_matchers-All :
      (ms : List Text)
      → validate_matchers compile ms ≡ none
      → All (λ m. (re : Text → Bool) × (compile m ≡ some re)) ms
  unfolding validate_matchers
  validate_matchers-All [] h = tt
  validate_matchers-All (m ∷ ms) h =
      let (compiled, more) = validate_step m (compile m) (validate_matchers compile ms) refl h in
      (compiled, validate_matchers-All ms more)

  -- A rule that Create does not refuse has a name, one of the two modes, and matchers that all compile.
  pub create_check-All :
      (r : RoutingRule)
      → create_check compile r ≡ none
      → (eq_text r.name [] ≡ false)
        × (is_mode r.mode ≡ true)
        × All (λ m. (re : Text → Bool) × (compile m ≡ some re)) r.matchers
  unfolding create_check
  create_check-All r h = elim (Bool-cases (eq_text r.name [])) [
    | inl unnamed ↦ absurd (some≢none (rw unnamed at h))
    | inr named ↦ elim (Bool-cases (is_mode r.mode)) [
      | inl mode ↦ (named, mode, validate_matchers-All r.matchers (rw (named, mode) at h))
      | inr other ↦ absurd (some≢none (rw (named, other) at h))
    ]
  ]
