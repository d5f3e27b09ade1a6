-- ===== src/Rbac/Selector/Known.antt =====
-- evalCEL and evalCELRepoOnly agree on the repository of an expression whose first clause is known.
use nexspence_demo.Prelude.{Text, arith, codes, has_prefix, trim_space, true, ◌||◌, ◌≡◌}
use nexspence_demo.Rbac.Selector.{eval_trimmed, eval_cel, first_clause, eval_cel_repo_only}

-- The first clause begins with one of the two words that the evaluator knows.
abbrev pub IsKnown : Text → Type 0
IsKnown expr =
    (has_prefix (first_clause (trim_space expr)) (codes "repository")
      || has_prefix (first_clause (trim_space expr)) (codes "path"))
    ≡ true

-- What evalCEL grants at some path, evalCELRepoOnly grants for the repository.
pub eval_cel_repo_only-eval_cel :
    (expr r p : Text) → IsKnown expr → eval_cel expr r p ≡ true → eval_cel_repo_only expr r ≡ true
unfolding eval_cel eval_cel_repo_only eval_trimmed first_clause
eval_cel_repo_only-eval_cel expr r p k h = ground arith
