-- ===== src/Prelude/Dict.antt =====
-- Go maps with string keys, as association lists.
use nexspence_demo.Prelude.Tests.{if◌then◌else◌, Bool-cases}
use nexspence_demo.Prelude.Lists.{All}
use mathlib.Core.Logic.{inl, inr}
use nexspence_demo.Prelude.Strings.{Text, eq_text, eq_text_iff}
use mathlib.Core.Path.{◌≡◌, refl, subst}
use mathlib.Core.Option.{Option, none, some}
use mathlib.Core.List.{List, [], ◌∷◌}
use native.Mathlib.Omega.{arith}

abbrev pub Dict {ℓ} : Type ℓ → Type ℓ
Dict V = List (Text × V)

module _ {ℓ} {V : Type ℓ} where
  -- v, ok := m[k]
  unfoldable pub get : Text → Dict V → Option V
  get k [] = none
  get k ((j, v) ∷ m) = if eq_text j k then some v else get k m

  -- m[k] = v
  unfoldable pub put : Text → V → Dict V → Dict V
  put k v [] = (k, v) ∷ []
  put k v ((j, w) ∷ m) = if eq_text j k then (k, v) ∷ m else (j, w) ∷ put k v m

  -- delete(m, k)
  unfoldable pub remove : Text → Dict V → Dict V
  remove k [] = []
  remove k ((j, v) ∷ m) = let rest = remove k m in if eq_text j k then rest else (j, v) ∷ rest

  pub get-put :
      (k j : Text) (v : V) (m : Dict V)
      → get j (put k v m) ≡ (if eq_text k j then some v else get j m)
  unfolding get put
  get-put k j v [] = refl
  get-put k j v ((i, w) ∷ m) =
      ground (arith, eq_text_iff k j, eq_text_iff i k, eq_text_iff i j, get-put k j v m)

  pub get-remove :
      (k j : Text) (m : Dict V) → get j (remove k m) ≡ (if eq_text k j then none else get j m)
  unfolding get remove
  get-remove k j [] = ground arith
  get-remove k j ((i, v) ∷ m) =
      ground (arith, get-remove k j m, eq_text_iff i k, eq_text_iff i j, eq_text_iff k j)

-- What holds of every value of a map.
module _ {V : Type 0} (P : V → Type 0) where
  abbrev pub AllValues : Dict V → Type 0
  AllValues m = All (λ (e : Text × V). P e.1) m

  pub AllValues-get : (k : Text) (v : V) (m : Dict V) → AllValues m → get k m ≡ some v → P v
  unfolding get
  AllValues-get k v [] h e = cc
  AllValues-get k v ((j, w) ∷ m) h e = elim (Bool-cases (eq_text j k)) [
    | inl t ↦ subst P (ground (arith, e, t)) h.0
    | inr f ↦ AllValues-get k v m h.1 (ground (arith, e, f))
  ]

  pub AllValues-put : (k : Text) (v : V) (m : Dict V) → P v → AllValues m → AllValues (put k v m)
  unfolding put
  AllValues-put k v [] p h = (p, tt)
  AllValues-put k v ((j, w) ∷ m) p h = elim (Bool-cases (eq_text j k)) [
    | inl t ↦ rw t (p, h.1)
    | inr f ↦ rw f (h.0, AllValues-put k v m p h.1)
  ]

  pub AllValues-remove : (k : Text) (m : Dict V) → AllValues m → AllValues (remove k m)
  unfolding remove
  AllValues-remove k [] h = tt
  AllValues-remove k ((j, w) ∷ m) h = elim (Bool-cases (eq_text j k)) [
    | inl t ↦ rw t (AllValues-remove k m h.1)
    | inr f ↦ rw f (h.0, AllValues-remove k m h.1)
  ]
