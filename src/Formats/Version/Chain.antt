-- ===== src/Formats/Version/Chain.antt =====
-- The loose order is transitive.
use nexspence_demo.Prelude.{
  List, Option, Text, [], ap, arith, eq_text, eq_text_iff, eq_text_refl, false, lt_text,
  lt_text_irrefl, none, refl, some, subst, true, ℕ, ◌∷◌, ◌≡◌,
}
use nexspence_demo.Formats.Version.{
  Comparison, below, same, above, atoi, compare_number, compare_text, compare_parsed,
  compare_segment, compare_segments, compare_loose_versions, fields, then_by, first_longer,
  second_longer,
}

-- The third comparison follows from the first two: two that do not turn upwards give `same` only if
-- both do.
abbrev pub Chains : Comparison → Comparison → Comparison → Type 0
Chains below below z = z ≡ below
Chains below same z = z ≡ below
Chains below above z = Unit {0}
Chains same y z = z ≡ y
Chains above y z = Unit {0}

lt_text_trans : (a b c : Text) → lt_text a b ≡ true → lt_text b c ≡ true → lt_text a c ≡ true
unfolding lt_text
lt_text_trans [] [] c h k = cc
lt_text_trans [] (y ∷ b) [] h k = cc
lt_text_trans [] (y ∷ b) (z ∷ c) h k = refl
lt_text_trans (x ∷ a) [] c h k = cc
lt_text_trans (x ∷ a) (y ∷ b) [] h k = cc
lt_text_trans (x ∷ a) (y ∷ b) (z ∷ c) h k = ground (arith, h, k, lt_text_trans a b c)

below_of : (a b : Text) → compare_text a b ≡ below → (eq_text a b ≡ false) × (lt_text a b ≡ true)
unfolding compare_text
below_of a b h = ground (arith, h)

same_of : (a b : Text) → compare_text a b ≡ same → a ≡ b
unfolding compare_text
same_of a b h = ground (arith, h, eq_text_iff a b)

then_by-Chains :
    (x y z : Comparison) (u v w : Comparison)
    → Chains x y z
    → Chains u v w
    → Chains (then_by x u) (then_by y v) (then_by z w)
unfolding then_by
then_by-Chains below below z u v w h k = rw h refl
then_by-Chains below same z u below w h k = rw h refl
then_by-Chains below same z u same w h k = rw h refl
then_by-Chains below same z u above w h k = tt
then_by-Chains below above z u v w h k = tt
then_by-Chains same below z below v w h k = rw h refl
then_by-Chains same below z same v w h k = rw h refl
then_by-Chains same below z above v w h k = tt
then_by-Chains same same z u v w h k = rw h k
then_by-Chains same above z below v w h k = tt
then_by-Chains same above z same v w h k = rw h refl
then_by-Chains same above z above v w h k = tt
then_by-Chains above y z u v w h k = tt

Chains-intro :
    (x y z : Comparison)
    → (x ≡ below → y ≡ below → z ≡ below)
    → (x ≡ below → y ≡ same → z ≡ below)
    → (x ≡ same → z ≡ y)
    → Chains x y z
Chains-intro below below z f g h = f refl refl
Chains-intro below same z f g h = g refl refl
Chains-intro below above z f g h = tt
Chains-intro same y z f g h = h refl
Chains-intro above y z f g h = tt

compare_number-Chains :
    (a b c : ℕ) → Chains (compare_number a b) (compare_number b c) (compare_number a c)
unfolding compare_number
compare_number-Chains a b c =
    Chains-intro (compare_number a b) (compare_number b c) (compare_number a c)
      (λ h k. ground (arith, h, k)) (λ h k. ground (arith, h, k)) (λ h. ground (arith, h))

text_below : (a b : Text) → lt_text a b ≡ true → compare_text a b ≡ below
unfolding compare_text
text_below a b h = ground (arith, h, eq_text_iff a b, lt_text_irrefl a)

compare_text-Chains :
    (a b c : Text) → Chains (compare_text a b) (compare_text b c) (compare_text a c)
compare_text-Chains a b c =
    Chains-intro (compare_text a b) (compare_text b c) (compare_text a c)
      (λ h k. text_below a c (lt_text_trans a b c (below_of a b h).1 (below_of b c k).1))
      (λ h k. subst (λ t. compare_text a t ≡ below) (same_of b c k) h)
      (λ h. ap (λ t. compare_text t c) (same_of a b h))

Chains-above : (x : Comparison) → Chains x above above
Chains-above below = tt
Chains-above same = refl
Chains-above above = tt

Chains-below : (x : Comparison) → Chains x below below
Chains-below below = refl
Chains-below same = refl
Chains-below above = tt

Chains-below_last : (y : Comparison) → Chains below y below
Chains-below_last below = refl
Chains-below_last same = refl
Chains-below_last above = tt

Chains-same : (x : Comparison) → Chains x same x
Chains-same below = refl
Chains-same same = refl
Chains-same above = tt

compare_parsed-Chains :
    (x y z : Option ℕ) (a b c : Text)
    → Chains (compare_parsed x y a b) (compare_parsed y z b c) (compare_parsed x z a c)
unfolding compare_parsed
compare_parsed-Chains (some n) (some m) (some k) a b c = compare_number-Chains n m k
compare_parsed-Chains (some n) (some m) none a b c = Chains-above (compare_number n m)
compare_parsed-Chains (some n) none z a b c = tt
compare_parsed-Chains none (some m) (some k) a b c = Chains-below_last (compare_number m k)
compare_parsed-Chains none (some m) none a b c = tt
compare_parsed-Chains none none (some k) a b c = Chains-below (compare_text a b)
compare_parsed-Chains none none none a b c = compare_text-Chains a b c

none_between : (o : Option ℕ) → Chains (second_longer o) (first_longer o) same
unfolding second_longer first_longer
none_between none = tt
none_between (some n) = tt

none_first :
    (y z : Option ℕ) (b c : Text) (r : Comparison)
    → Chains (second_longer y) (then_by (compare_parsed y z b c) r) (second_longer z)
unfolding second_longer compare_parsed then_by
none_first none z b c r = tt
none_first (some n) (some m) b c r = Chains-below_last (then_by (compare_number n m) r)
none_first (some n) none b c r = tt

none_second :
    (x z : Option ℕ) (a c : Text) (r : Comparison)
    → Chains (first_longer x) (second_longer z) (then_by (compare_parsed x z a c) r)
unfolding second_longer first_longer compare_parsed then_by
none_second none none a c r = tt
none_second none (some m) a c r = refl
none_second (some n) z a c r = tt

none_third :
    (x y : Option ℕ) (a b : Text) (r : Comparison)
    → Chains (then_by (compare_parsed x y a b) r) (first_longer y) (first_longer x)
unfolding first_longer compare_parsed then_by
none_third (some n) (some m) a b r = Chains-above (then_by (compare_number n m) r)
none_third (some n) none a b r = tt
none_third none (some m) a b r = tt
none_third none none a b r = Chains-below (then_by (compare_text a b) r)

compare_segments-Chains :
    (xs ys zs : List Text)
    → Chains (compare_segments xs ys) (compare_segments ys zs) (compare_segments xs zs)
unfolding compare_segments compare_segment
compare_segments-Chains [] [] zs = refl
compare_segments-Chains [] (y ∷ ys) [] = none_between (atoi y)
compare_segments-Chains [] (y ∷ ys) (z ∷ zs) =
    none_first (atoi y) (atoi z) y z (compare_segments ys zs)
compare_segments-Chains (x ∷ xs) [] [] = Chains-same (first_longer (atoi x))
compare_segments-Chains (x ∷ xs) [] (z ∷ zs) =
    none_second (atoi x) (atoi z) x z (compare_segments xs zs)
compare_segments-Chains (x ∷ xs) (y ∷ ys) [] =
    none_third (atoi x) (atoi y) x y (compare_segments xs ys)
compare_segments-Chains (x ∷ xs) (y ∷ ys) (z ∷ zs) =
    then_by-Chains (compare_segment x y) (compare_segment y z) (compare_segment x z)
      (compare_segments xs ys) (compare_segments ys zs) (compare_segments xs zs)
      (compare_parsed-Chains (atoi x) (atoi y) (atoi z) x y z) (compare_segments-Chains xs ys zs)

compare_parsed-same : (o : Option ℕ) (a : Text) → compare_parsed o o a a ≡ same
unfolding compare_parsed compare_number compare_text
compare_parsed-same (some n) a = ground arith
compare_parsed-same none a = rw (eq_text_refl a)

compare_segments-same : (xs : List Text) → compare_segments xs xs ≡ same
unfolding compare_segments compare_segment then_by
compare_segments-same [] = refl
compare_segments-same (x ∷ xs) = rw (compare_parsed-same (atoi x) x) (compare_segments-same xs)

decided :
    (s t : Text)
    → eq_text s [] ≡ false
    → eq_text t [] ≡ false
    → compare_loose_versions s t ≡ compare_segments (fields [] s) (fields [] t)
unfolding compare_loose_versions
decided s t hs ht = ground (arith, hs, ht, eq_text_iff s t, compare_segments-same (fields [] s))

-- The comparison is transitive: a version below another one, which is below or the same as a third, is
-- below the third, and versions that compare as the same compare alike with every other.
pub compare_loose_versions-Chains :
    (a b c : Text)
    → Chains (compare_loose_versions a b) (compare_loose_versions b c) (compare_loose_versions a c)
unfolding compare_loose_versions eq_text
compare_loose_versions-Chains [] [] c = refl
compare_loose_versions-Chains [] (y ∷ b) [] = tt
compare_loose_versions-Chains [] (y ∷ b) (z ∷ c) =
    Chains-below_last (compare_loose_versions (y ∷ b) (z ∷ c))
compare_loose_versions-Chains (x ∷ a) [] c = tt
compare_loose_versions-Chains (x ∷ a) (y ∷ b) [] =
    Chains-above (compare_loose_versions (x ∷ a) (y ∷ b))
compare_loose_versions-Chains (x ∷ a) (y ∷ b) (z ∷ c) =
    rw
      (
        decided (x ∷ a) (y ∷ b) refl refl,
        decided (y ∷ b) (z ∷ c) refl refl,
        decided (x ∷ a) (z ∷ c) refl refl,
      )
      (compare_segments-Chains (fields [] (x ∷ a)) (fields [] (y ∷ b)) (fields [] (z ∷ c)))
