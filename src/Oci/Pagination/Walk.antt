-- ===== src/Oci/Pagination/Walk.antt =====
-- A client that follows the Link headers sees every entry once, in order, and stops.
use nexspence_demo.Prelude.{
  All, Bool, Bool-cases, List, Text, [], ap, append-nil, append_assoc, arith, drop, false,
  if◌then◌else◌, inl, inr, leb, length, length-drop, lt_text, lt_text_irrefl, none, refl, some,
  subst, suc, sym, take, take-append-drop, true, zero, ℕ, ◌++◌, ◌+◌, ◌<◌, ◌∙◌, ◌∷◌, ◌≡◌, ◌≢◌,
}
use nexspence_demo.Oci.Pagination.{
  from_first, skip_run, after_cursor, paginate, last_of, next_cursor,
}

-- Strictly ascending, with no empty entry.
abbrev pub IsAscending : List Text → Type 0
IsAscending [] = Unit {0}
IsAscending (e ∷ es) = (e ≢ []) × All (λ f. lt_text e f ≡ true) es × IsAscending es

-- What the client collects: a request, and another from the Link header while there is one.
unfoldable pub walk : ℕ → List Text → ℕ → Text → List Text
walk zero entries n last = []
walk (suc fuel) entries n last =
    let (page, more) = paginate entries (record { n = n; last = last }) in
    page ++ elim (next_cursor page more) [ none ↦ [] | some c ↦ walk fuel entries n c ]

lt_text_asym : (a b : Text) → lt_text a b ≡ true → lt_text b a ≡ false
unfolding lt_text
lt_text_asym [] b h = ground arith
lt_text_asym (x ∷ a) [] h = cc
lt_text_asym (x ∷ a) (y ∷ b) h = ground (arith, lt_text_asym a b)

All-at :
    (P : Text → Type 0) (pre : List Text) (e : Text) (post : List Text)
    → All P (pre ++ e ∷ post)
    → P e
All-at P [] e post h = h.0
All-at P (p ∷ pre) e post h = All-at P pre e post h.1

from_first-append :
    (pre : List Text) (e : Text) (post : List Text)
    → IsAscending (pre ++ e ∷ post)
    → from_first (pre ++ e ∷ post) e ≡ e ∷ post
unfolding from_first
from_first-append [] e post a = rw (lt_text_irrefl e)
from_first-append (p ∷ pre) e post a =
    rw (All-at (λ f. lt_text p f ≡ true) pre e post a.1) (from_first-append pre e post a.2)

skip_run-cons :
    (e : Text) (post : List Text)
    → All (λ f. lt_text e f ≡ true) post
    → skip_run (e ∷ post) e ≡ post
unfolding skip_run
skip_run-cons e [] h = rw (lt_text_irrefl e)
skip_run-cons e (f ∷ post) h = rw (lt_text_irrefl e, h.0)

IsAscending-at : (pre post : List Text) → IsAscending (pre ++ post) → IsAscending post
IsAscending-at [] post a = a
IsAscending-at (p ∷ pre) post a = IsAscending-at pre post a.2

-- Behind `pre` and its next entry `e`, the cursor `e` leaves exactly what follows.
after_cursor-append :
    (pre : List Text) (e : Text) (post : List Text)
    → IsAscending (pre ++ e ∷ post)
    → after_cursor (pre ++ e ∷ post) e ≡ post
unfolding after_cursor
after_cursor-append pre [] post a = absurd ((IsAscending-at pre ([] ∷ post) a).0 refl)
after_cursor-append pre (c ∷ e) post a =
    ap (λ t. skip_run t (c ∷ e)) (from_first-append pre (c ∷ e) post a)
    ∙ skip_run-cons (c ∷ e) post (IsAscending-at pre ((c ∷ e) ∷ post) a).1

init_of : List Text → List Text
init_of [] = []
init_of (e ∷ []) = []
init_of (e ∷ f ∷ page) = e ∷ init_of (f ∷ page)

init_of-last_of :
    (e : Text) (page : List Text) → e ∷ page ≡ init_of (e ∷ page) ++ last_of (e ∷ page) ∷ []
unfolding init_of last_of
init_of-last_of e [] = refl
init_of-last_of e (f ∷ page) = ap (λ t. e ∷ t) (init_of-last_of f page)

-- The cursor that ends a page leaves what follows the page.
after_cursor-page :
    (pre : List Text) (e : Text) (page post : List Text)
    → IsAscending (pre ++ (e ∷ page ++ post))
    → after_cursor (pre ++ (e ∷ page ++ post)) (last_of (e ∷ page)) ≡ post
after_cursor-page pre e page post a =
    subst (λ t. after_cursor t (last_of (e ∷ page)) ≡ post) (sym regroup)
      (after_cursor-append (pre ++ init_of (e ∷ page)) (last_of (e ∷ page)) post
        (subst IsAscending regroup a))
  where
    regroup : pre ++ (e ∷ page ++ post) ≡ (pre ++ init_of (e ∷ page)) ++ last_of (e ∷ page) ∷ post
    regroup =
        ap (λ t. pre ++ (t ++ post)) (init_of-last_of e page)
        ∙ ap (λ t. pre ++ t) (append_assoc (init_of (e ∷ page)) (last_of (e ∷ page) ∷ []) post)
        ∙ sym (append_assoc pre (init_of (e ∷ page)) (last_of (e ∷ page) ∷ post))

paginate_at :
    (entries : List Text) (n : ℕ) (last : Text) (rest : List Text)
    → 0 < n
    → after_cursor entries last ≡ rest
    → paginate entries (record { n = n; last = last })
      ≡ (if leb (length rest) n then (rest, false) else (take n rest, true))
unfolding paginate
paginate_at entries n last rest pos e = rw e (ground arith)

no_cursor : (page : List Text) → next_cursor page false ≡ none
unfolding next_cursor
no_cursor [] = refl
no_cursor (e ∷ page) = refl

walk_step : ℕ → List Text → ℕ → List Text × Bool → List Text
walk_step fuel entries n (page, more) =
    page ++ elim (next_cursor page more) [ none ↦ [] | some c ↦ walk fuel entries n c ]

walk_final :
    (fuel : ℕ) (entries : List Text) (n : ℕ) (last : Text) (rest : List Text)
    → 0 < n
    → after_cursor entries last ≡ rest
    → leb (length rest) n ≡ true
    → walk (suc fuel) entries n last ≡ rest
unfolding walk walk_step
walk_final fuel entries n last rest pos e le =
    let page : paginate entries (record { n = n; last = last }) ≡ (rest, false) =
      paginate_at entries n last rest pos e ∙ rw le in
    ap (walk_step fuel entries n) page ∙ rw (no_cursor rest, append-nil)

walk_more :
    (fuel : ℕ) (entries : List Text) (n : ℕ) (last x : Text) (xs : List Text)
    → after_cursor entries last ≡ x ∷ xs
    → leb (suc (length xs)) (suc n) ≡ false
    → walk (suc fuel) entries (suc n) last
      ≡ x ∷ take n xs ++ walk fuel entries (suc n) (last_of (x ∷ take n xs))
unfolding walk walk_step next_cursor
walk_more fuel entries n last x xs e gt =
    let page : paginate entries (record { n = suc n; last = last }) ≡ (x ∷ take n xs, true) =
      paginate_at entries (suc n) last (x ∷ xs) (omega arith) e ∙ rw gt in
    ap (walk_step fuel entries (suc n)) page

walk-rest :
    (fuel n : ℕ) (pre rest : List Text) (last : Text)
    → 0 < n
    → length rest < fuel
    → IsAscending (pre ++ rest)
    → after_cursor (pre ++ rest) last ≡ rest
    → walk fuel (pre ++ rest) n last ≡ rest
walk-rest zero n pre rest last pos h a e = absurd (omega arith)
walk-rest (suc fuel) zero pre rest last pos h a e = absurd (omega arith)
walk-rest (suc fuel) (suc n) pre [] last pos h a e =
    walk_final fuel (pre ++ []) (suc n) last [] pos e (ground arith)
walk-rest (suc fuel) (suc n) pre (x ∷ xs) last pos h a e =
    elim (Bool-cases (leb (suc (length xs)) (suc n))) [
      | inl le ↦ walk_final fuel (pre ++ x ∷ xs) (suc n) last (x ∷ xs) pos e le
      | inr gt ↦
          walk_more fuel (pre ++ x ∷ xs) n last x xs e gt
          ∙ ap (λ t. x ∷ take n xs ++ t)
              (later (
                walk-rest fuel (suc n) (pre ++ (x ∷ take n xs)) (drop n xs)
                  (last_of (x ∷ take n xs)) pos))
          ∙ ap (λ t. x ∷ t) (take-append-drop n xs)
    ]
  where
    split : pre ++ x ∷ xs ≡ pre ++ (x ∷ take n xs ++ drop n xs)
    split = ap (λ t. pre ++ x ∷ t) (sym (take-append-drop n xs))

    group : pre ++ x ∷ xs ≡ (pre ++ (x ∷ take n xs)) ++ drop n xs
    group = split ∙ sym (append_assoc pre (x ∷ take n xs) (drop n xs))

    cursor : after_cursor (pre ++ x ∷ xs) (last_of (x ∷ take n xs)) ≡ drop n xs
    cursor =
        subst (λ t. after_cursor t (last_of (x ∷ take n xs)) ≡ drop n xs) (sym split)
          (after_cursor-page pre x (take n xs) (drop n xs) (subst IsAscending split a))

    later :
        (length (drop n xs) < fuel
          → IsAscending ((pre ++ (x ∷ take n xs)) ++ drop n xs)
          → after_cursor ((pre ++ (x ∷ take n xs)) ++ drop n xs) (last_of (x ∷ take n xs))
            ≡ drop n xs
          → walk fuel ((pre ++ (x ∷ take n xs)) ++ drop n xs) (suc n) (last_of (x ∷ take n xs))
            ≡ drop n xs)
        → walk fuel (pre ++ x ∷ xs) (suc n) (last_of (x ∷ take n xs)) ≡ drop n xs
    later ih =
        subst (λ t. walk fuel t (suc n) (last_of (x ∷ take n xs)) ≡ drop n xs) (sym group)
          (ih (rw length-drop (omega arith)) (subst IsAscending group a)
            (subst (λ t. after_cursor t (last_of (x ∷ take n xs)) ≡ drop n xs) group cursor))

-- For a strictly ascending list with no empty entry and a positive page size, a client that follows
-- the Link headers from the first page gets every entry once, in order, and is done after at most
-- as many requests as there are entries, and one.
pub walk-eq_self :
    (entries : List Text) (n : ℕ)
    → 0 < n
    → IsAscending entries
    → walk (length entries + 1) entries n [] ≡ entries
unfolding after_cursor
walk-eq_self entries n pos a =
    walk-rest (length entries + 1) n [] entries [] pos (omega arith) a refl
