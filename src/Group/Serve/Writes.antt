-- ===== src/Group/Serve/Writes.antt =====
-- Where a write to a group can go.
use nexspence_demo.Prelude.{
  Bool-cases, Option, Text, [], and_parts, ap, arith, codes, eq_text, eq_text_sound, inl, inr, none,
  refl, some, sym, true, ◌&&◌, ◌∙◌, ◌≡◌, ◌≢◌,
}
use nexspence_demo.Domain.{Repository}
use nexspence_demo.Group.{error_response, Request, Response, Deps}
use nexspence_demo.Group.Serve.{
  WriteReply, serve_write, write_group, is_writable, write_target, refused, handed, handed,
  is_writable, hand_over,
}

module _ (deps : Deps) where
  hand_over-handed :
      (req : Request) (group : Repository) (t : Text) (r : Repository) (u : Text) (a : Response)
      → hand_over deps req group t r ≡ handed u a
      → (t ≡ u) × (is_writable deps group r ≡ true)
  unfolding hand_over
  hand_over-handed req group t r u a h = ground (arith, h)

  refused_not_handed : {s a : Response} {u : Text} → refused s ≢ handed u a
  refused_not_handed e = cc

  by_target : Request → Repository → Text → Option Repository → WriteReply
  by_target req group t o = elim o [
    | none ↦ refused (error_response 404 "writable member not found")
    | some r ↦ hand_over deps req group t r
  ]

  by_target-handed :
      (req : Request) (group : Repository) (t : Text) (o : Option Repository) (u : Text)
      (a : Response)
      → by_target req group t o ≡ handed u a
      → (t ≡ u) × ((r : Repository) × (o ≡ some r) × (is_writable deps group r ≡ true))
  unfolding by_target
  by_target-handed req group t none u a h = cc
  by_target-handed req group t (some r) u a h =
      let (e, w) = hand_over-handed req group t r u a h in (e, (r, refl, w))

  write_group-handed :
      (req : Request) (group : Repository) (u : Text) (a : Response)
      → write_group deps req group ≡ handed u a
      → (r : Repository) × (deps.repos u ≡ some r) × (is_writable deps group r ≡ true)
  unfolding write_group by_target
  write_group-handed req group u a h = elim (Bool-cases (eq_text (write_target deps group) [])) [
    | inl unnamed ↦ absurd (refused_not_handed (rw unnamed at h))
    | inr named ↦
        let (e, (r, q, w)) =
          by_target-handed req group (write_target deps group)
            (deps.repos (write_target deps group)) u a (rw named at h) in
        (r, ap deps.repos (sym e) ∙ q, w)
  ]

  is_writable-parts :
      (group r : Repository)
      → is_writable deps group r ≡ true
      → (r.online ≡ true) × (r.kind ≡ codes "hosted") × (r.format ≡ group.format)
  unfolding is_writable
  is_writable-parts group r w =
      let kind = eq_text r.kind (codes "hosted") in
      let format = eq_text r.format group.format in
      let (both, f) = and_parts (r.online && kind) format w in
      let (on, k) = and_parts r.online kind both in
      (on, eq_text_sound r.kind (codes "hosted") k, eq_text_sound r.format group.format f)

  -- A write that a group hands over goes to a repository that exists, is online, is hosted and has the
  -- format of the group.
  pub serve_write-hosted :
      (req : Request) (t : Text) (a : Response)
      → serve_write deps req ≡ handed t a
      → (group r : Repository) × (deps.repos req.repo_name ≡ some group)
        × (deps.repos t ≡ some r)
        × (r.online ≡ true)
        × (r.kind ≡ codes "hosted")
        × (r.format ≡ group.format)
  unfolding serve_write write_group is_writable
  serve_write-hosted req t a h = of_group (deps.repos req.repo_name) refl h
    where
      of_group :
          (o : Option Repository)
          → deps.repos req.repo_name ≡ o
          → (elim o [
            | none ↦ refused (error_response 404 "group repository not found")
            | some group ↦ write_group deps req group
          ])
            ≡ handed t a
          → (group r : Repository) × (deps.repos req.repo_name ≡ some group)
            × (deps.repos t ≡ some r)
            × (r.online ≡ true)
            × (r.kind ≡ codes "hosted")
            × (r.format ≡ group.format)
      of_group none e k = absurd (refused_not_handed k)
      of_group (some group) e k =
          let (r, q, w) = write_group-handed req group t a k in
          let (on, hosted, format) = is_writable-parts group r w in
          (group, r, e, q, on, hosted, format)
