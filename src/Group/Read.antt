-- ===== src/Group/Read.antt =====
-- Who answers a read on a plain path.
use nexspence_demo.Prelude.{
  All, Bool-cases, List, Option, Text, [], ap, arith, false, inl, inr, none, refl, some, subst, sym,
  ◌++◌, ◌==◌, ◌∙◌, ◌∷◌, ◌≡◌, ◌⊎◌,
}
use nexspence_demo.Domain.{Repository, RoutingRule}
use nexspence_demo.Group.{
  reply_of, Request, Response, Format, Deps, error_response, status_of, call_member, from_member,
  asked, member_reply, first_reply,
}

module _ (deps : Deps) (req : Request) (group : Repository) (rule : Option RoutingRule) where
  -- The member is not asked, or its handler's answer is a 404.
  abbrev pub Passes : Text → Type 0
  Passes m =
      (asked deps group rule req.path m ≡ none)
      ⊎ ((format : Format) × (asked deps group rule req.path m ≡ some format)
          × (status_of (call_member deps req m req.path req.query format) ≡ 404))

  -- The member is asked, its handler's answer `r` is not a 404, and `s` is that answer under the
  -- group's headers.
  abbrev pub Answers : Text → Response → Type 0
  Answers m s =
      (format : Format) × (asked deps group rule req.path m ≡ some format)
      × ((r : Response) × (r ≡ call_member deps req m req.path req.query format)
          × ((status_of r == 404) ≡ false)
          × (s ≡ from_member req m (status_of r) r))

  reply_cases :
      (m : Text) (o : Option Format)
      → asked deps group rule req.path m ≡ o
      → (Passes m × (member_reply deps req group rule m ≡ none))
        ⊎ ((s : Response) × (member_reply deps req group rule m ≡ some s) × Answers m s)
  unfolding member_reply reply_of
  reply_cases m none e = inl (inl e, ap (reply_of deps req m) e)
  reply_cases m (some format) e =
      let r = call_member deps req m req.path req.query format in
      elim (Bool-cases (status_of r == 404)) [
        | inl missing ↦
            inl (inr (format, e, ground (arith, missing)), ap (reply_of deps req m) e ∙ rw missing)
        | inr found ↦ inr (
          from_member req m (status_of r) r,
          ap (reply_of deps req m) e ∙ rw found,
          (format, e, (r, refl, found, refl)),
        )
      ]

  next : List Text → Option Response → Response
  next members o = elim o [ none ↦ first_reply deps req group rule members | some r ↦ r ]

  -- On a plain path either every member passes and the group answers 404, or the group's answer is the
  -- answer of a member before which all members pass.
  pub first_reply-cases :
      (members : List Text)
      → (All Passes members
          × (first_reply deps req group rule members
              ≡ error_response 404 "artifact not found in any member of group"))
        ⊎ ((pre : List Text) × ((m : Text) × ((post : List Text) × (members ≡ pre ++ m ∷ post)
                × All Passes pre
                × Answers m (first_reply deps req group rule members))))
  unfolding first_reply next
  first_reply-cases [] = inl (tt, refl)
  first_reply-cases (m ∷ members) = elim (reply_cases m (asked deps group rule req.path m) refl) [
    | inl (pass, on) ↦ elim (first_reply-cases members) [
      | inl (all, missing) ↦ inl ((pass, all), ap (next members) on ∙ missing)
      | inr (pre, (x, (post, e, all, a))) ↦ inr (
        m ∷ pre,
        (
          x,
          (post, ap (λ t. m ∷ t) e, (pass, all), subst (Answers x) (sym (ap (next members) on)) a),
        ),
      )
    ]
    | inr (s, e, a) ↦
        inr ([], (m, (members, refl, tt, subst (Answers m) (sym (ap (next members) e)) a)))
  ]
