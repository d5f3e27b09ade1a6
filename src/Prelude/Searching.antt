-- ===== src/Prelude/Searching.antt =====
-- Laws of the searches and cuts of `Strings`, on texts put together from parts.
use mathlib.Core.Option
use nexspence_demo.Prelude.Lists.{length, take, drop, All}
use nexspence_demo.Prelude.Strings.{
  has_prefix, Text, index, last_index, is_space, trim_right, trim_space,
}
use Prim.Native.Nat.{ℕ, ◌+◌}
use mathlib.Core.Path.{◌≡◌, refl, ap}
use mathlib.Core.Logic.{◌≢◌}
use mathlib.Core.Bool.{false}
use mathlib.Core.Option.{Option, none, some}
use mathlib.Core.List.{List, [], ◌∷◌, ◌++◌}
use native.Mathlib.Nat.{zero-add, suc-add}
use native.Mathlib.Omega.{arith}

-- `c` does not stand in the text.
abbrev pub Lacks : ℕ → Text → Type 0
Lacks c s = All (λ x. x ≢ c) s

module _ {ℓ} {A : Type ℓ} where
  pub take-append : (a b : List A) → take (length a) (a ++ b) ≡ a
  take-append [] b = refl
  take-append (x ∷ a) b = ap (λ t. x ∷ t) (take-append a b)

  pub drop-append : (a b : List A) (n : ℕ) → drop (length a + n) (a ++ b) ≡ drop n b
  drop-append [] b n = rw zero-add
  drop-append (x ∷ a) b n = rw suc-add (drop-append a b n)

pub trim_right-append :
    (s : Text) (z : ℕ) → is_space z ≡ false → trim_right (s ++ z ∷ []) ≡ s ++ z ∷ []
unfolding trim_right
trim_right-append [] z h = rw h
trim_right-append (c ∷ []) z h = rw h
trim_right-append (c ∷ d ∷ s) z h = rw (trim_right-append (d ∷ s) z h)

-- A text that begins and ends with no space is left as it is.
pub trim_space-eq_self :
    (a : ℕ) (s : Text) (z : ℕ)
    → is_space a ≡ false
    → is_space z ≡ false
    → trim_space (a ∷ s ++ z ∷ []) ≡ a ∷ s ++ z ∷ []
unfolding trim_space
trim_space-eq_self a s z h k = rw h (trim_right-append (a ∷ s) z k)

map_zero_add : (o : Option ℕ) → o ≡ Option.map (λ i. 0 + i) o
map_zero_add none = refl
map_zero_add (some i) = ap some (omega arith)

-- The first place of a character is behind a part that lacks it.
pub index-append :
    (a : Text) (c : ℕ) (p b : Text)
    → Lacks c a
    → index (a ++ b) (c ∷ p) ≡ Option.map (λ i. length a + i) (index b (c ∷ p))
unfolding index
index-append [] c p b h = map_zero_add (index b (c ∷ p))
index-append (x ∷ a) c p b h = ground (arith, index-append a c p b h.1)

pub last_index-Lacks : (b : Text) (c : ℕ) → Lacks c b → last_index b (c ∷ []) ≡ none
unfolding last_index
last_index-Lacks [] c h = refl
last_index-Lacks (x ∷ b) c h = ground (arith, last_index-Lacks b c h.1)

pub last_index-append :
    (a : Text) (c : ℕ) (b : Text) → Lacks c b → last_index (a ++ c ∷ b) (c ∷ []) ≡ some (length a)
unfolding last_index
last_index-append [] c b h = rw (last_index-Lacks b c h) (ground arith)
last_index-append (x ∷ a) c b h = rw (last_index-append a c b h)

pub Lacks-append : (c : ℕ) (a b : Text) → Lacks c a → Lacks c b → Lacks c (a ++ b)
Lacks-append c [] b h k = k
Lacks-append c (x ∷ a) b h k = (h.0, Lacks-append c a b h.1 k)

no_prefix :
    (a : Text) (z d : ℕ) (b p : Text) → Lacks d a → z ≢ d → has_prefix (a ++ z ∷ b) (d ∷ p) ≡ false
unfolding has_prefix
no_prefix [] z d b p h k = ground arith
no_prefix (x ∷ a) z d b p h k = let away : x ≢ d = h.0 in ground arith

-- The first place of a text is behind a part that lacks the text's second character.
pub index-append_second :
    (a : Text) (c d : ℕ) (p : Text) (z : ℕ) (b : Text)
    → Lacks d a
    → z ≢ d
    → index (a ++ z ∷ b) (c ∷ d ∷ p) ≡ Option.map (λ i. length a + i) (index (z ∷ b) (c ∷ d ∷ p))
unfolding index
index-append_second [] c d p z b h k = map_zero_add (index (z ∷ b) (c ∷ d ∷ p))
index-append_second (x ∷ a) c d p z b h k =
    ground (arith, index-append_second a c d p z b h.1 k, no_prefix a z d b p h.1 k)

pub index-Lacks_second : (a : Text) (c d : ℕ) (p : Text) → Lacks d a → index a (c ∷ d ∷ p) ≡ none
unfolding index
index-Lacks_second [] c d p h = refl
index-Lacks_second (x ∷ []) c d p h = ground arith
index-Lacks_second (x ∷ y ∷ a) c d p h =
    let away : y ≢ d = h.1.0 in ground (arith, index-Lacks_second (y ∷ a) c d p h.1)
