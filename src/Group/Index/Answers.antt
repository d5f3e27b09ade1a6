-- ===== src/Group/Index/Answers.antt =====
-- What is collected for an index.
use nexspence_demo.Prelude.{
  Bool, List, Option, Text, [], ap, append-nil, append_assoc, ap₂, arith, false, if◌then◌else◌,
  keep_if, leb, none, not, refl, some, true, ◌&&◌, ◌++◌, ◌∙◌, ◌∷◌, ◌≡◌,
}
use nexspence_demo.Group.{call_member, asked, status_of, Deps, Parts, Response}
use nexspence_demo.Group.Index.{
  is_fatal, Ask, Contribution, Collected, skipped, part_of, fatal_answer, collected, failed,
  contribution, collect_index_parts,
}

unfoldable is_brought : Contribution → Bool
is_brought c = elim c [ part_of p ↦ true | _ ↦ false ]

-- The part that a member brings, as a list of at most one.
unfoldable part : Contribution → Parts
part skipped = []
part (part_of p) = p ∷ []
part (fatal_answer m r) = []

keep_if-same :
    (p q : Text → Bool)
    → ((m : Text) → p m ≡ q m)
    → (members : List Text) → keep_if p members ≡ keep_if q members
keep_if-same p q e [] = refl
keep_if-same p q e (m ∷ members) = ground (arith, e m, keep_if-same p q e members)

module _ (deps : Deps) where
  unfoldable brought : Ask → List Text → Parts
  unfolding part
  brought a [] = []
  brought a (m ∷ members) = part (contribution deps a m) ++ brought a members

  unfoldable relayed : Ask → List Text → Option (Text × Response)
  relayed a [] = none
  relayed a (m ∷ members) = elim (contribution deps a m) [
    | fatal_answer x r ↦ some (x, r)
    | _ ↦ relayed a members
  ]

  collect-append :
      (a : Ask) (members : List Text) (parts : Parts) (names : List Text)
      → collect_index_parts deps a members parts names ≡ elim (relayed a members) [
        | some (m, r) ↦ failed m r
        | none ↦
            collected
              (parts ++ brought a members)
              (names ++ keep_if (λ m. is_brought (contribution deps a m)) members)
      ]
  unfolding collect_index_parts relayed brought part is_brought
  collect-append a [] parts names = rw (append-nil, append-nil)
  collect-append a (m ∷ members) parts names =
      step (contribution deps a m) (collect-append a members)
    where
      kept : List Text
      kept = keep_if (λ x. is_brought (contribution deps a x)) members

      outcome : Parts → List Text → Collected
      outcome ps ns = elim (relayed a members) [ some (x, r) ↦ failed x r | none ↦ collected ps ns ]

      step :
          (c : Contribution)
          → ((ps : Parts) (ns : List Text)
              → collect_index_parts deps a members ps ns ≡ elim (relayed a members) [
                | some (x, r) ↦ failed x r
                | none ↦ collected (ps ++ brought a members) (ns ++ kept)
              ])
          → (elim c as (λ _. Collected) [
            | skipped ↦ collect_index_parts deps a members parts names
            | part_of p ↦ collect_index_parts deps a members (parts ++ (p ∷ [])) (names ++ (m ∷ []))
            | fatal_answer x r ↦ failed x r
          ])
            ≡ elim (elim c as (λ _. Option (Text × Response)) [
              | fatal_answer x r ↦ some (x, r)
              | _ ↦ relayed a members
            ]) [
              | some (x, r) ↦ failed x r
              | none ↦
                  collected
                    (parts ++ (part c ++ brought a members))
                    (names ++ (if is_brought c then m ∷ kept else kept))
            ]
      step skipped ih = ih parts names
      step (part_of p) ih =
          ih (parts ++ (p ∷ [])) (names ++ (m ∷ []))
          ∙ ap₂ outcome (append_assoc parts (p ∷ []) (brought a members))
              (append_assoc names (m ∷ []) kept)
      step (fatal_answer x r) ih = refl

  -- What the handler of a member that is asked about the index answers
  unfoldable pub answer : Ask → Text → Option Response
  answer a m = elim (asked deps a.group a.rule a.source m) [
    | none ↦ none
    | some format ↦ some (call_member deps a.req m a.source a.query format)
  ]

  -- The member answered with a status from 200 to 299.
  unfoldable pub is_success : Ask → Text → Bool
  unfolding answer
  is_success a m = elim (answer a m) [
    | none ↦ false
    | some r ↦ leb 200 (status_of r) && leb (status_of r) 299
  ]

  -- The documents of the members that succeeded, in member order
  unfoldable pub documents : Ask → List Text → Parts
  unfolding answer is_success
  documents a [] = []
  documents a (m ∷ members) =
      let rest = documents a members in
      if is_success a m
      then elim (answer a m) [ none ↦ rest | some r ↦ record { member = m; body = r.body } ∷ rest ]
      else rest

  -- The member answered outside of 200 to 299, with a status that the format calls fatal for the index.
  unfoldable pub is_failure : Ask → Text → Bool
  unfolding answer is_success
  is_failure a m = elim (answer a m) [
    | none ↦ false
    | some r ↦
        not (is_success a m)
        && elim a.fatal [ none ↦ false | some fatal ↦ fatal a.source (status_of r) ]
  ]

  -- The first such member with its answer
  unfoldable pub first_failure : Ask → List Text → Option (Text × Response)
  unfolding answer is_failure
  first_failure a [] = none
  first_failure a (m ∷ members) =
      let rest = first_failure a members in
      if is_failure a m then elim (answer a m) [ none ↦ rest | some r ↦ some (m, r) ] else rest

  contribution-answer :
      (a : Ask) (m : Text)
      → contribution deps a m ≡ elim (answer a m) as (λ _. Contribution) [
        | none ↦ skipped
        | some r ↦
            (if is_success a m
              then part_of (record { member = m; body = r.body })
              else if is_failure a m
              then fatal_answer m r
              else skipped)
      ]
  unfolding contribution answer is_success is_failure is_fatal
  contribution-answer a m = ground arith

  brought-documents : (a : Ask) (members : List Text) → brought a members ≡ documents a members
  unfolding brought documents part is_success
  brought-documents a [] = refl
  brought-documents a (m ∷ members) =
      ground (arith, contribution-answer a m, brought-documents a members)

  relayed-first_failure :
      (a : Ask) (members : List Text) → relayed a members ≡ first_failure a members
  unfolding relayed first_failure is_failure is_success
  relayed-first_failure a [] = refl
  relayed-first_failure a (m ∷ members) =
      ground (arith, contribution-answer a m, relayed-first_failure a members)

  is_brought-is_success : (a : Ask) (m : Text) → is_brought (contribution deps a m) ≡ is_success a m
  unfolding is_brought is_success
  is_brought-is_success a m = ground (arith, contribution-answer a m)

  -- What a request collects for an index: if an asked member answers outside of 200 to 299 with a status
  -- that the format calls fatal, the first such member with its answer; otherwise the bodies of all
  -- members that answered with 200 to 299, under their names, in member order.
  pub collect_index_parts-all :
      (a : Ask) (members : List Text)
      → collect_index_parts deps a members [] [] ≡ elim (first_failure a members) [
        | some (m, r) ↦ failed m r
        | none ↦ collected (documents a members) (keep_if (is_success a) members)
      ]
  collect_index_parts-all a members =
      collect-append a members [] []
      ∙ ap (λ o. described o (brought a members) kept) (relayed-first_failure a members)
      ∙ ap (λ ps. described (first_failure a members) ps kept) (brought-documents a members)
      ∙ ap (described (first_failure a members) (documents a members)) (
          keep_if-same (λ m. is_brought (contribution deps a m)) (is_success a)
            (is_brought-is_success a) members)
    where
      kept : List Text
      kept = keep_if (λ m. is_brought (contribution deps a m)) members

      described : Option (Text × Response) → Parts → List Text → Collected
      described o parts names = elim o [ some (m, r) ↦ failed m r | none ↦ collected parts names ]
