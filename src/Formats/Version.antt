-- ===== src/Formats/Version.antt =====
-- internal/formats/base/version.go: the loose order of versions.
pub mod Order
pub mod Chain
use nexspence_demo.Prelude.{
  Bool, List, Option, Text, [], codes, eq_text, false, if◌then◌else◌, leb, lt_text, ltb, none, some,
  trim_prefix, true, ℕ, ◌&&◌, ◌*◌, ◌++◌, ◌+◌, ◌-◌, ◌==◌, ◌^◌, ◌||◌, ◌∷◌,
}

-- -1, 0 and 1.
pub data Comparison : Type 0 where
  below : Comparison
  same : Comparison
  above : Comparison

unfoldable pub is_separator : ℕ → Bool
is_separator c = c == 46 || c == 45

-- strings.FieldsFunc: `word` is what stands before the next separator; empty fields are left out.
unfoldable pub fields : Text → Text → List Text
unfolding is_separator
fields word [] = if eq_text word [] then [] else word ∷ []
fields word (c ∷ s) = elim (is_separator c) [
  | true ↦ (let rest = fields [] s in if eq_text word [] then rest else word ∷ rest)
  | false ↦ fields (word ++ (c ∷ [])) s
]

unfoldable pub digits : ℕ → Text → Option ℕ
digits n [] = some n
digits n (c ∷ s) =
    let rest = digits (n * 10 + (c - 48)) s in if leb 48 c && leb c 57 then rest else none

-- strconv.Atoi on a field, which holds no minus sign: `none` for an error, out of range of an int
-- (64 bits) too.
unfoldable pub unsigned : Text → Option ℕ
unfolding digits
unsigned [] = none
unsigned (c ∷ s) = digits 0 (c ∷ s)

unfoldable pub atoi : Text → Option ℕ
unfolding unsigned
atoi s = elim (unsigned (trim_prefix s (codes "+"))) [
  | none ↦ none
  | some n ↦ (if ltb n (2 ^ 63) then some n else none)
]

unfoldable pub compare_number : ℕ → ℕ → Comparison
compare_number a b = if a == b then same else if ltb a b then below else above

-- strings.Compare
unfoldable pub compare_text : Text → Text → Comparison
compare_text a b = if eq_text a b then same else if lt_text a b then below else above

-- The switch of the loop on two segments and what Atoi gives for them: `same` where the loop goes on.
unfoldable pub compare_parsed : Option ℕ → Option ℕ → Text → Text → Comparison
unfolding compare_number compare_text
compare_parsed (some n) (some m) a b = compare_number n m
compare_parsed (some n) none a b = above
compare_parsed none (some m) a b = below
compare_parsed none none a b = compare_text a b

unfoldable pub compare_segment : Text → Text → Comparison
unfolding atoi compare_parsed
compare_segment a b = compare_parsed (atoi a) (atoi b) a b

-- The first difference decides; where there is none, the rest.
unfoldable pub then_by : Comparison → Comparison → Comparison
then_by below c = below
then_by same c = c
then_by above c = above

-- The tail rule, for what Atoi gives for the first segment that only the second, or only the first,
-- version has.
unfoldable pub second_longer : Option ℕ → Comparison
second_longer none = above
second_longer (some n) = below

unfoldable pub first_longer : Option ℕ → Comparison
first_longer none = below
first_longer (some n) = above

-- The loop and the tail rule.
unfoldable pub compare_segments : List Text → List Text → Comparison
unfolding compare_segment then_by first_longer second_longer
compare_segments [] [] = same
compare_segments [] (b ∷ ys) = second_longer (atoi b)
compare_segments (a ∷ xs) [] = first_longer (atoi a)
compare_segments (a ∷ xs) (b ∷ ys) = then_by (compare_segment a b) (compare_segments xs ys)

unfoldable pub compare_loose_versions : Text → Text → Comparison
unfolding compare_segments fields
compare_loose_versions a b =
    if eq_text a b
    then same
    else if eq_text a []
    then below
    else if eq_text b []
    then above
    else compare_segments (fields [] a) (fields [] b)
