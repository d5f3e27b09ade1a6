-- ===== src/Formats/Version/Order.antt =====
-- The loose order is an order.
use nexspence_demo.Prelude.{
  List, Option, Text, [], ap, ap₂, arith, eq_text, eq_text_iff, false, lt_text, none, not, refl,
  some, sym, ℕ, ◌∙◌, ◌∷◌, ◌≡◌,
}
use nexspence_demo.Formats.Version.{
  compare_parsed, Comparison, below, same, above, atoi, compare_number, compare_text,
  compare_segment, compare_segments, compare_loose_versions, fields, then_by, first_longer,
  second_longer,
}

abbrev pub flip : Comparison → Comparison
flip below = above
flip same = same
flip above = below

lt_text-connex : (a b : Text) → eq_text a b ≡ false → lt_text a b ≡ not (lt_text b a)
unfolding lt_text eq_text
lt_text-connex [] [] h = cc
lt_text-connex [] (y ∷ b) h = refl
lt_text-connex (x ∷ a) [] h = refl
lt_text-connex (x ∷ a) (y ∷ b) h = ground (arith, lt_text-connex a b)

eq_text-sym : (a b : Text) → eq_text a b ≡ eq_text b a
unfolding eq_text
eq_text-sym [] [] = refl
eq_text-sym [] (y ∷ b) = refl
eq_text-sym (x ∷ a) [] = refl
eq_text-sym (x ∷ a) (y ∷ b) = ground (arith, eq_text-sym a b)

compare_text-flip : (a b : Text) → compare_text a b ≡ flip (compare_text b a)
unfolding compare_text
compare_text-flip a b = ground (arith, eq_text-sym a b, lt_text-connex a b)

compare_number-flip : (a b : ℕ) → compare_number a b ≡ flip (compare_number b a)
unfolding compare_number
compare_number-flip a b = ground arith

compare_parsed-flip :
    (x y : Option ℕ) (a b : Text) → compare_parsed x y a b ≡ flip (compare_parsed y x b a)
unfolding compare_parsed
compare_parsed-flip (some n) (some m) a b = compare_number-flip n m
compare_parsed-flip (some n) none a b = refl
compare_parsed-flip none (some m) a b = refl
compare_parsed-flip none none a b = compare_text-flip a b

flip-then_by : (x y : Comparison) → flip (then_by x y) ≡ then_by (flip x) (flip y)
unfolding then_by
flip-then_by below y = refl
flip-then_by same y = refl
flip-then_by above y = refl

longer-flip : (o : Option ℕ) → second_longer o ≡ flip (first_longer o)
unfolding second_longer first_longer
longer-flip none = refl
longer-flip (some n) = refl

flip-flip : (c : Comparison) → flip (flip c) ≡ c
flip-flip below = refl
flip-flip same = refl
flip-flip above = refl

compare_segments-flip : (xs ys : List Text) → compare_segments xs ys ≡ flip (compare_segments ys xs)
unfolding compare_segments compare_segment
compare_segments-flip [] [] = refl
compare_segments-flip [] (y ∷ ys) = longer-flip (atoi y)
compare_segments-flip (x ∷ xs) [] =
    sym (ap flip (longer-flip (atoi x)) ∙ flip-flip (first_longer (atoi x)))
compare_segments-flip (x ∷ xs) (y ∷ ys) =
    ap₂ then_by (compare_parsed-flip (atoi x) (atoi y) x y) (compare_segments-flip xs ys)
    ∙ sym (flip-then_by (compare_parsed (atoi y) (atoi x) y x) (compare_segments ys xs))

-- Swapping the two versions turns the result round.
pub compare_loose_versions-flip :
    (a b : Text) → compare_loose_versions a b ≡ flip (compare_loose_versions b a)
unfolding compare_loose_versions
compare_loose_versions-flip a b = ground (
  arith,
  eq_text-sym a b,
  eq_text_iff a b,
  eq_text_iff a [],
  eq_text_iff b [],
  compare_segments-flip (fields [] a) (fields [] b),
)
