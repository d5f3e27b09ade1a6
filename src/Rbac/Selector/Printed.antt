-- ===== src/Rbac/Selector/Printed.antt =====
-- The meaning of the expressions that the two known clauses print.
use nexspence_demo.Prelude.{
  Text, [], ap, append_assoc, arith, codes, eq_text, false, has_prefix, if◌then◌else◌, index,
  is_space, last_index, length, length-append, none, refl, some, suc, trim_space, ℕ, ◌++◌, ◌+◌, ◌-◌,
  ◌<◌, ◌∙◌, ◌∷◌, ◌≡◌,
}
use nexspence_demo.Prelude.Searching.{
  Lacks, take-append, drop-append, trim_space-eq_self, index-append, last_index-append,
  Lacks-append, index-Lacks_second,
}
use nexspence_demo.Rbac.Selector.{
  slice, quoted, eval_repo_clause, eval_path_clause, eval_trimmed, eval_cel,
}

-- repository<op>"X", the shape of evalRepoClause's comment with the operator left open
abbrev pub repository_test : Text → Text → Text
repository_test op x = (codes "repository" ++ op) ++ 34 ∷ (x ++ 34 ∷ [])

-- path.startsWith("Y")
abbrev pub path_test : Text → Text
path_test y = codes "path.startsWith(" ++ 34 ∷ (y ++ 34 ∷ 41 ∷ [])

abbrev pub both_tests : Text → Text → Text → Text
both_tests op x y = repository_test op x ++ (codes " && " ++ path_test y)

quoted_at :
    (e : Text) (s t : ℕ)
    → index e (codes "\"") ≡ some s
    → last_index e (codes "\"") ≡ some t
    → s < t
    → quoted e ≡ some (slice e (s + 1) t)
unfolding quoted
quoted_at e s t hs ht h = ground arith

slice_between :
    (a m b : Text) → slice (a ++ 34 ∷ (m ++ b)) (length a + 1) (length a + suc (length m)) ≡ m
unfolding slice
slice_between a m b =
    let width : length a + suc (length m) - (length a + 1) ≡ length m = omega arith in
    rw (drop-append a (34 ∷ (m ++ b)) 1, width) (take-append m b)

-- What stands between the first quote and the last one.
pub quoted_between :
    (a m b : Text) → Lacks 34 a → Lacks 34 b → quoted (a ++ 34 ∷ (m ++ 34 ∷ b)) ≡ some m
unfolding index
quoted_between a m b ha hb =
    quoted_at _ (length a) (length a + suc (length m)) first last (omega arith)
    ∙ ap some (slice_between a m (34 ∷ b))
  where
    first : index (a ++ 34 ∷ (m ++ 34 ∷ b)) (codes "\"") ≡ some (length a)
    first = rw (index-append a 34 [] (34 ∷ (m ++ 34 ∷ b)) ha) (ap some (omega arith))

    last : last_index (a ++ 34 ∷ (m ++ 34 ∷ b)) (codes "\"") ≡ some (length a + suc (length m))
    last =
        rw (← append_assoc a (34 ∷ m) (34 ∷ b), last_index-append (a ++ 34 ∷ m) 34 b hb)
          (ap some (length-append a (34 ∷ m)))

eval_path_at : (e q p : Text) → quoted e ≡ some q → eval_path_clause e p ≡ has_prefix p q
unfolding eval_path_clause
eval_path_at e q p h = ground (arith, h)

eval_repo_at : (e q r : Text) → quoted e ≡ some q → eval_repo_clause e r ≡ eq_text r q
unfolding eval_repo_clause
eval_repo_at e q r h = ground (arith, h)

trim_space-path_test : (y : Text) → trim_space (path_test y) ≡ path_test y
unfolding is_space
trim_space-path_test y =
    rw (← append_assoc y (34 ∷ []) (41 ∷ []))
      (trim_space-eq_self 112 (codes "ath.startsWith(" ++ 34 ∷ (y ++ 34 ∷ [])) 41 refl refl)

eval_path_clause-test : (y p : Text) → eval_path_clause (path_test y) p ≡ has_prefix p y
eval_path_clause-test y p =
    eval_path_at (path_test y) y p
      (quoted_between (codes "path.startsWith(") y (41 ∷ []) (omega arith) (omega arith))

-- evalCEL without " && ": the clause is chosen by the first word.
eval_single :
    (e r p : Text)
    → index e (codes " && ") ≡ none
    → eval_trimmed e r p ≡ (
        if has_prefix e (codes "repository")
        then eval_repo_clause e r
        else if has_prefix e (codes "path")
        then eval_path_clause e p
        else false)
unfolding eval_trimmed
eval_single e r p h = ground (arith, h)

module _ (op x : Text) (amp_op : Lacks 38 op) (quote_op : Lacks 34 op) (amp : Lacks 38 x) where
  eval_repo_clause-test : (r : Text) → eval_repo_clause (repository_test op x) r ≡ eq_text r x
  eval_repo_clause-test r = eval_repo_at (repository_test op x) x r (
      quoted_between (codes "repository" ++ op) x []
        (Lacks-append 34 (codes "repository") op (omega arith) quote_op) tt)

  trim_space-test : trim_space (repository_test op x) ≡ repository_test op x
  unfolding is_space
  trim_space-test =
      rw (← append_assoc (codes "repository" ++ op) (34 ∷ x) (34 ∷ []))
        (trim_space-eq_self 114 (codes "epository" ++ (op ++ 34 ∷ x)) 34 refl refl)

  Lacks-test : Lacks 38 (repository_test op x)
  Lacks-test =
      Lacks-append 38 (codes "repository" ++ op) (34 ∷ (x ++ 34 ∷ []))
        (Lacks-append 38 (codes "repository") op (omega arith) amp_op)
        (omega arith, Lacks-append 38 x (34 ∷ []) amp (omega arith, tt))

  -- A lone repository clause holds exactly of the repository that it quotes, whatever the operator.
  pub eval_cel-repository_test : (r p : Text) → eval_cel (repository_test op x) r p ≡ eq_text r x
  unfolding eval_cel has_prefix
  eval_cel-repository_test r p = rw (trim_space-test) (
      eval_single (repository_test op x) r p
        (index-Lacks_second (repository_test op x) 32 38 (codes "& ") Lacks-test)
      ∙ eval_repo_clause-test r)

-- A lone path clause holds exactly of the paths with the quoted prefix.
pub eval_cel-path_test : (y r p : Text) → Lacks 38 y → eval_cel (path_test y) r p ≡ has_prefix p y
unfolding eval_cel has_prefix
eval_cel-path_test y r p h = rw trim_space-path_test (
    eval_single (path_test y) r p (
      index-Lacks_second (path_test y) 32 38 (codes "& ") (
        Lacks-append 38 (codes "path.startsWith(") (34 ∷ (y ++ 34 ∷ 41 ∷ [])) (omega arith)
          (omega arith, Lacks-append 38 y (34 ∷ 41 ∷ []) h (omega arith))))
    ∙ eval_path_clause-test y p)
