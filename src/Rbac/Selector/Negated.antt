-- ===== src/Rbac/Selector/Negated.antt =====
-- Expressions with another operator than the two that rbac_service.go knows.
use nexspence_demo.Prelude.{
  Text, arith, codes, eq_text, eq_text_iff, eq_text_refl, false, true, ◌∙◌, ◌≡◌, ◌≢◌,
}
use nexspence_demo.Rbac.Selector.{eval_cel}
use nexspence_demo.Rbac.Selector.Printed.{repository_test, eval_cel-repository_test}
use nexspence_demo.Prelude.Searching.{Lacks}

-- `repository != "X"` is not refused as unknown: it holds in the repository X, and in no other.
pub not_equal_grants :
    (x r p : Text)
    → Lacks 38 x
    → (eval_cel (repository_test (codes " != ") x) x p ≡ true)
      × (r ≢ x → eval_cel (repository_test (codes " != ") x) r p ≡ false)
not_equal_grants x r p h =
    (same x ∙ eq_text_refl x, λ ne. same r ∙ ground (arith, eq_text_iff r x, ne))
  where
    same : (t : Text) → eval_cel (repository_test (codes " != ") x) t p ≡ eq_text t x
    same t = eval_cel-repository_test (codes " != ") x (omega arith) (omega arith) h t p
