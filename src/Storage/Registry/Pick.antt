-- ===== src/Storage/Registry/Pick.antt =====
-- PickMember finds a member with room exactly if there is one.
use native.Mathlib.Nat.{mod-add-mod, mod-eq_of_lt, mod-lt, add-mod_right}
use native.Mathlib.Decide.{dec_le, ℕ_discrete}
use nexspence_demo.Prelude.{
  Among, Bool-cases, List, Option, Option-cases, Text, [], any_of, ap, arith, codes, eq_text, false,
  get_or, inl, inr, length, none, refl, some, subst, suc, sym, true, zero, ℕ, ◌%◌, ◌+◌, ◌-◌, ◌<◌,
  ◌^◌, ◌∙◌, ◌∷◌, ◌≡◌, ◌≤◌,
}
use nexspence_demo.Prelude.Dict.{Dict}
use nexspence_demo.Storage.Registry.{
  MemberInfo, has_capacity, no_member, scan, first_fit, counter, pick,
}

get_or-Among : {A : Type 0} (xs : List A) (i : ℕ) (d : A) → i < length xs → Among (get_or xs i d) xs
get_or-Among [] i d h = absurd (omega arith)
get_or-Among (x ∷ xs) zero d h = inl refl
get_or-Among (x ∷ xs) (suc i) d h = inr (get_or-Among xs i d (omega arith))

-- Where the list is at hand, a member found is on it and has room.
abbrev pub Fits : List MemberInfo → Option MemberInfo → Type 0
Fits members none = any_of has_capacity members ≡ false
Fits members (some m) = Among m members × (has_capacity m ≡ true)

Fits-later :
    (m : MemberInfo) (members : List MemberInfo) (o : Option MemberInfo)
    → has_capacity m ≡ false
    → Fits members o
    → Fits (m ∷ members) o
Fits-later m members none h f = rw h f
Fits-later m members (some x) h f = (inr f.0, f.1)

first_fit-Fits : (members : List MemberInfo) → Fits members (first_fit members)
unfolding first_fit
first_fit-Fits [] = refl
first_fit-Fits (m ∷ members) = elim (Bool-cases (has_capacity m)) [
  | inl y ↦ rw y (inl refl, y)
  | inr z ↦ rw z (Fits-later m members (first_fit members) z (first_fit-Fits members))
]

none_by_place :
    (members : List MemberInfo)
    → ((q : ℕ) → q < length members → has_capacity (get_or members q no_member) ≡ false)
    → any_of has_capacity members ≡ false
none_by_place [] h = refl
none_by_place (m ∷ members) h =
    rw (h 0 (omega arith)) (none_by_place members (λ q lt. h (suc q) (omega arith)))

-- Some round of a rotation by `start` reaches each place.
round_of : (start n q : ℕ) → q < n → (j : ℕ) × (j < n) × ((start + j) % n ≡ q)
round_of start n q h = elim (dec_le (start % n) q) [
  | yes le ↦ (
    q - start % n,
    omega arith,
    sym (mod-add-mod start n (q - start % n)) ∙ ap (λ t. t % n) (omega arith) ∙ mod-eq_of_lt h,
  )
  | no nle ↦ (
    q + n - start % n,
    omega (arith, mod-lt start {m = n} (omega arith)),
    sym (mod-add-mod start n (q + n - start % n))
        ∙ ap (λ t. t % n) (omega (arith, mod-lt start {m = n} (omega arith)))
        ∙ add-mod_right q n
        ∙ mod-eq_of_lt h,
  )
]

module _ (members : List MemberInfo) (n start : ℕ) (size : n ≡ length members)
    (some_member : 0 < n) where
  abbrev candidate : ℕ → MemberInfo
  candidate i = get_or members ((start + i) % 2 ^ 64 % n) no_member

  candidate-Among : (i : ℕ) → Among (candidate i) members
  candidate-Among i =
      get_or-Among members ((start + i) % 2 ^ 64 % n) no_member
        (rw (← size) (mod-lt ((start + i) % 2 ^ 64) some_member))

  scan-some :
      (k i : ℕ) (m : MemberInfo)
      → scan members n start k i ≡ some m
      → Among m members × (has_capacity m ≡ true)
  unfolding scan
  scan-some zero i m h = cc
  scan-some (suc k) i m h = elim (Bool-cases (has_capacity (candidate i))) [
    | inl y ↦
        let e : candidate i ≡ m = ground (arith, y, h) in
        (subst (λ x. Among x members) e (candidate-Among i), subst (λ x. has_capacity x ≡ true) e y)
    | inr z ↦ scan-some k (i + 1) m (ground (arith, z, h))
  ]

  scan-none :
      (k i j : ℕ)
      → scan members n start k i ≡ none
      → i ≤ j
      → j < i + k
      → has_capacity (candidate j) ≡ false
  unfolding scan
  scan-none zero i j h le lt = absurd (omega arith)
  scan-none (suc k) i j h le lt = elim (Bool-cases (has_capacity (candidate i))) [
    | inl y ↦ absurd (ground (arith, y, h))
    | inr z ↦ elim (ℕ_discrete i j) [
      | yes e ↦ subst (λ t. has_capacity (candidate t) ≡ false) e z
      | no ne ↦ scan-none k (i + 1) j (ground (arith, z, h)) (omega arith) (omega arith)
    ]
  ]

  scan-Fits : start + n ≤ 2 ^ 64 → Fits members (scan members n start n 0)
  scan-Fits bound = elim (Option-cases (scan members n start n 0)) [
    | inl e ↦ rw e (none_by_place members (λ q lt. empty e q (rw size lt)))
    | inr (m, e) ↦ rw e (scan-some n 0 m e)
  ]
    where
      empty :
          scan members n start n 0 ≡ none
          → (q : ℕ) → q < n
          → has_capacity (get_or members q no_member) ≡ false
      empty e q lt =
          let (j, below, place) = round_of start n q lt in
          let narrow : (start + j) % 2 ^ 64 ≡ start + j = mod-eq_of_lt (omega arith) in
          let here : (start + j) % 2 ^ 64 % n ≡ q = rw narrow place in
          subst (λ t. has_capacity (get_or members t no_member) ≡ false) here
            (scan-none n 0 j e (omega arith) (omega arith))

-- Under either policy (the round-robin counter not within one round of 2^64) the member chosen is one
-- of the group's and has room, and none is chosen exactly if no member has room.
pub pick-Fits :
    (counters : Dict ℕ) (group policy : Text) (members : List MemberInfo)
    → counter counters group + length members ≤ 2 ^ 64
    → Fits members (pick counters group policy members).0
unfolding pick
pick-Fits counters group policy [] h = refl
pick-Fits counters group policy (m ∷ members) h =
    elim (Bool-cases (eq_text policy (codes "round_robin"))) [
      | inl y ↦
          rw (y, pick)
            (scan-Fits (m ∷ members) (length (m ∷ members)) (counter counters group) refl
              (omega arith) h)
      | inr z ↦ rw (z, pick) (first_fit-Fits (m ∷ members))
    ]
