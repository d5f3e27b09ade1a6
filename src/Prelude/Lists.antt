-- ===== src/Prelude/Lists.antt =====
-- Lists measured and indexed by native numbers, and predicates on their members.
use Prim.Native.Nat.{ℕ, zero, suc, ◌+◌, ◌-◌, ◌<◌, min}
use mathlib.Core.Path.{◌≡◌, refl, sym, ap, subst, ◌∙◌}
use mathlib.Core.Logic.{◌≢◌, ◌⊎◌, inl, inr}
use mathlib.Core.Bool.{Bool, true, false, ◌||◌}
use mathlib.Core.List.{List, [], ◌∷◌, ◌++◌}
use native.Mathlib.Omega.{arith}
use nexspence_demo.Prelude.Tests.{if◌then◌else◌, Bool-cases, or_parts}

module _ {ℓ} {A : Type ℓ} where
  abbrev pub length : List A → ℕ
  length [] = 0
  length (x ∷ xs) = suc (length xs)

  abbrev pub get_or : List A → ℕ → A → A
  get_or [] i d = d
  get_or (x ∷ xs) zero d = x
  get_or (x ∷ xs) (suc i) d = get_or xs i d

  -- A write out of bounds changes nothing.
  abbrev pub set : List A → ℕ → A → List A
  set [] i v = []
  set (x ∷ xs) zero v = v ∷ xs
  set (x ∷ xs) (suc i) v = x ∷ set xs i v

  abbrev pub take : ℕ → List A → List A
  take zero xs = []
  take (suc n) [] = []
  take (suc n) (x ∷ xs) = x ∷ take n xs

  abbrev pub drop : ℕ → List A → List A
  drop zero xs = xs
  drop (suc n) [] = []
  drop (suc n) (x ∷ xs) = drop n xs

  abbrev pub replicate : ℕ → A → List A
  replicate zero a = []
  replicate (suc n) a = a ∷ replicate n a

  -- The members that pass a test, in order.
  abbrev pub keep_if : (A → Bool) → List A → List A
  keep_if p [] = []
  keep_if p (x ∷ xs) = let rest = keep_if p xs in if p x then x ∷ rest else rest

  -- Some member passes the test.
  abbrev pub any_of : (A → Bool) → List A → Bool
  any_of p [] = false
  any_of p (x ∷ xs) = p x || any_of p xs

  abbrev pub All {κ} : (A → Type κ) → List A → Type κ
  All P [] = Unit
  All P (x ∷ xs) = P x × All P xs

-- Membership with its place kept.
abbrev pub Among : {A : Type 0} → A → List A → Type 0
Among a [] = ⊥
Among a (x ∷ xs) = (x ≡ a) ⊎ Among a xs

module _ {ℓ} {A : Type ℓ} where
  pub length-append : (xs ys : List A) → length (xs ++ ys) ≡ length xs + length ys
  length-append [] ys = omega arith
  length-append (x ∷ xs) ys = omega (arith, length-append xs ys)

  pub length-set : (xs : List A) (i : ℕ) (v : A) → length (set xs i v) ≡ length xs
  length-set [] i v = refl
  length-set (x ∷ xs) zero v = refl
  length-set (x ∷ xs) (suc i) v = ap suc (length-set xs i v)

  pub length-replicate : (n : ℕ) (a : A) → length (replicate n a) ≡ n
  length-replicate zero a = refl
  length-replicate (suc n) a = ap suc (length-replicate n a)

  pub length-drop : (n : ℕ) (xs : List A) → length (drop n xs) ≡ length xs - n
  length-drop zero xs = omega arith
  length-drop (suc n) [] = omega arith
  length-drop (suc n) (x ∷ xs) = omega (arith, length-drop n xs)

  pub get_or-set_self :
      (xs : List A) (i : ℕ) (v d : A) → i < length xs → get_or (set xs i v) i d ≡ v
  get_or-set_self [] i v d h = absurd (omega arith)
  get_or-set_self (x ∷ xs) zero v d h = refl
  get_or-set_self (x ∷ xs) (suc i) v d h = get_or-set_self xs i v d (omega arith)

  pub get_or-set_ne :
      (xs : List A) (i j : ℕ) (v d : A) → i ≢ j → get_or (set xs i v) j d ≡ get_or xs j d
  get_or-set_ne [] i j v d h = refl
  get_or-set_ne (x ∷ xs) zero zero v d h = absurd (h refl)
  get_or-set_ne (x ∷ xs) zero (suc j) v d h = refl
  get_or-set_ne (x ∷ xs) (suc i) zero v d h = refl
  get_or-set_ne (x ∷ xs) (suc i) (suc j) v d h = get_or-set_ne xs i j v d (λ e. h (ap suc e))

  pub take-append-drop : (n : ℕ) (xs : List A) → take n xs ++ drop n xs ≡ xs
  take-append-drop zero xs = refl
  take-append-drop (suc n) [] = refl
  take-append-drop (suc n) (x ∷ xs) = rw (take-append-drop n xs)

  pub length-take : (n : ℕ) (xs : List A) → length (take n xs) ≡ min n (length xs)
  length-take zero xs = omega arith
  length-take (suc n) [] = omega arith
  length-take (suc n) (x ∷ xs) = omega (arith, length-take n xs)

module _ {A : Type 0} where
  pub Among-append_left : (a : A) (xs ys : List A) → Among a xs → Among a (xs ++ ys)
  Among-append_left a [] ys h = absurd h
  Among-append_left a (x ∷ xs) ys (inl e) = inl e
  Among-append_left a (x ∷ xs) ys (inr h) = inr (Among-append_left a xs ys h)

  pub Among-append_right : (a : A) (xs ys : List A) → Among a ys → Among a (xs ++ ys)
  Among-append_right a [] ys h = h
  Among-append_right a (x ∷ xs) ys h = inr (Among-append_right a xs ys h)

  pub Among-append : (a : A) (xs ys : List A) → Among a (xs ++ ys) → Among a xs ⊎ Among a ys
  Among-append a [] ys h = inr h
  Among-append a (x ∷ xs) ys (inl e) = inl (inl e)
  Among-append a (x ∷ xs) ys (inr h) = elim (Among-append a xs ys h) [
    | inl l ↦ inl (inr l)
    | inr r ↦ inr r
  ]

module _ {A : Type 0} (p : A → Bool) where
  pub Among-keep_if : (a : A) (xs : List A) → Among a xs → p a ≡ true → Among a (keep_if p xs)
  Among-keep_if a [] m h = absurd m
  Among-keep_if a (x ∷ xs) (inl e) h = rw (ap p e ∙ h) (inl e)
  Among-keep_if a (x ∷ xs) (inr m) h = elim (Bool-cases (p x)) [
    | inl t ↦ rw t (inr (Among-keep_if a xs m h))
    | inr f ↦ rw f (Among-keep_if a xs m h)
  ]

  pub Among-of_keep_if : (a : A) (xs : List A) → Among a (keep_if p xs) → Among a xs × (p a ≡ true)
  Among-of_keep_if a [] m = absurd m
  Among-of_keep_if a (x ∷ xs) m = kept (p x) refl m (Among-of_keep_if a xs)
    where
      kept :
          (b : Bool)
          → p x ≡ b
          → Among a (if b then x ∷ keep_if p xs else keep_if p xs)
          → (Among a (keep_if p xs) → Among a xs × (p a ≡ true))
          → Among a (x ∷ xs) × (p a ≡ true)
      kept true e (inl q) ih = (inl q, ap p (sym q) ∙ e)
      kept true e (inr n) ih = (inr (ih n).0, (ih n).1)
      kept false e n ih = (inr (ih n).0, (ih n).1)

  pub keep_if-append : (xs ys : List A) → keep_if p (xs ++ ys) ≡ keep_if p xs ++ keep_if p ys
  keep_if-append [] ys = refl
  keep_if-append (x ∷ xs) ys = ground (arith, keep_if-append xs ys)

  pub any_of-Among : (a : A) (xs : List A) → Among a xs → p a ≡ true → any_of p xs ≡ true
  any_of-Among a [] m h = absurd m
  any_of-Among a (x ∷ xs) (inl e) h = rw (ap p e ∙ h)
  any_of-Among a (x ∷ xs) (inr m) h = ground (arith, any_of-Among a xs m h)

  pub Among-of_any_of : (xs : List A) → any_of p xs ≡ true → (a : A) × Among a xs × (p a ≡ true)
  Among-of_any_of [] h = cc
  Among-of_any_of (x ∷ xs) h = found (or_parts (p x) (any_of p xs) h) (Among-of_any_of xs)
    where
      found :
          (p x ≡ true) ⊎ (any_of p xs ≡ true)
          → (any_of p xs ≡ true → (a : A) × Among a xs × (p a ≡ true))
          → (a : A) × Among a (x ∷ xs) × (p a ≡ true)
      found (inl e) ih = (x, inl refl, e)
      found (inr e) ih = let (a, m, q) = ih e in (a, inr m, q)

module _ {A : Type 0} {P Q : A → Type 0} where
  pub All-imp : ((x : A) → P x → Q x) → (xs : List A) → All P xs → All Q xs
  All-imp f [] h = tt
  All-imp f (x ∷ xs) h = (f x h.0, All-imp f xs h.1)

module _ {A : Type 0} (P : A → Type 0) where
  pub All-append : (xs ys : List A) → All P xs → All P ys → All P (xs ++ ys)
  All-append [] ys h k = k
  All-append (x ∷ xs) ys h k = (h.0, All-append xs ys h.1 k)

  pub All-Among : (xs : List A) (x : A) → All P xs → Among x xs → P x
  All-Among [] x h m = absurd m
  All-Among (y ∷ xs) x h (inl e) = subst P e h.0
  All-Among (y ∷ xs) x h (inr m) = All-Among xs x h.1 m

  pub All-keep_if :
      (p : A → Bool) (xs : List A) → All P xs → All (λ x. P x × (p x ≡ true)) (keep_if p xs)
  All-keep_if p [] h = tt
  All-keep_if p (x ∷ xs) h = elim (Bool-cases (p x)) [
    | inl kept ↦ rw kept ((h.0, kept), All-keep_if p xs h.1)
    | inr cut ↦ rw cut (All-keep_if p xs h.1)
  ]

  pub All-any_of :
      (p : A → Bool) (xs : List A) → All P xs → any_of p xs ≡ true → (x : A) × (P x) × (p x ≡ true)
  All-any_of p [] h e = cc
  All-any_of p (x ∷ xs) h e = elim (Bool-cases (p x)) [
    | inl found ↦ (x, h.0, found)
    | inr other ↦ All-any_of p xs h.1 (rw other at e)
  ]
