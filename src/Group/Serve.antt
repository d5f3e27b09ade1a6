-- ===== src/Group/Serve.antt =====
-- internal/formats/group/handler.go: reads and writes of a group.
pub mod Writes
use nexspence_demo.Prelude.{
  Bool, List, Option, Text, [], codes, eq_text, if◌then◌else◌, none, not, some, ◌&&◌, ◌||◌, ◌∷◌,
}
use nexspence_demo.Domain.{Repository, RoutingRule, group_member_names, group_writable_member}
use nexspence_demo.Group.{
  Request, Response, Merger, Format, Deps, has_traversal_segment, error_response, status_of,
  call_member, first_reply,
}
use nexspence_demo.Group.Index.{serve_merged_index}

-- A write is refused by the group itself, or handed to a member and answered by it.
pub data WriteReply : Type 0 where
  refused : Response → WriteReply
  handed : Text → Response → WriteReply

module _ (deps : Deps) where
  unfoldable pub rule_of : Repository → Option RoutingRule
  rule_of group = elim group.routing_rule_id [ none ↦ none | some id ↦ deps.routing_rules id ]

  -- The format's merger and the source of the document, where the path names an index.
  unfoldable pub index_source : Repository → Text → Option (Merger × Text)
  index_source group path = elim (deps.formats group.format) [
    | none ↦ none
    | some format ↦ elim format.merger [
      | none ↦ none
      | some merger ↦ elim (merger.source_path path) [
        | none ↦ none
        | some source ↦ some (merger, source)
      ]
    ]
  ]

  unfoldable pub serve_members : Request → Repository → List Text → Response
  unfolding first_reply rule_of index_source serve_merged_index error_response
  serve_members req group [] = error_response 404 "group repository has no members configured"
  serve_members req group (m ∷ members) = elim (index_source group req.path) [
    | none ↦ first_reply deps req group (rule_of group) (m ∷ members)
    | some (merger, source) ↦
        serve_merged_index deps req group (m ∷ members) (rule_of group) merger source
  ]

  unfoldable pub serve_get : Request → Response
  unfolding serve_members group_member_names error_response
  serve_get req = elim (deps.repos req.repo_name) [
    | none ↦ error_response 404 "group repository not found"
    | some group ↦ serve_members req group (group_member_names group)
  ]

  unfoldable pub is_writable : Repository → Repository → Bool
  is_writable group r = r.online && eq_text r.kind (codes "hosted") && eq_text r.format group.format

  -- The first member that can be written to, the empty name if none can.
  unfoldable pub first_writable : Repository → List Text → Text
  unfolding is_writable
  first_writable group [] = []
  first_writable group (member ∷ members) =
      let rest = first_writable group members in
      elim (deps.repos member) [
        | none ↦ rest
        | some r ↦ (if is_writable group r then member else rest)
      ]

  unfoldable pub write_target : Repository → Text
  unfolding first_writable group_writable_member group_member_names
  write_target group =
      let named = group_writable_member group in
      if eq_text named [] then first_writable group (group_member_names group) else named

  unfoldable pub hand_over : Request → Repository → Text → Repository → WriteReply
  unfolding is_writable error_response status_of call_member
  hand_over req group target r =
      if not (is_writable group r)
      then refused (
          error_response 409
            "writable_member is not an online hosted repository matching group format")
      else elim (deps.formats r.format) [
        | none ↦ refused (error_response 500 "no handler for format")
        | some format ↦
            let answer = call_member deps req target req.path req.query format in
            handed target (record answer { code = status_of answer })
      ]

  unfoldable pub write_group : Request → Repository → WriteReply
  unfolding write_target hand_over error_response
  write_group req group =
      let target = write_target group in
      if eq_text target []
      then refused (error_response 405 "group repository has no hosted member")
      else elim (deps.repos target) [
        | none ↦ refused (error_response 404 "writable member not found")
        | some r ↦ hand_over req group target r
      ]

  unfoldable pub serve_write : Request → WriteReply
  unfolding write_group error_response
  serve_write req = elim (deps.repos req.repo_name) [
    | none ↦ refused (error_response 404 "group repository not found")
    | some group ↦ write_group req group
  ]

  unfoldable pub serve_http : Request → Response
  unfolding serve_get serve_write has_traversal_segment error_response
  serve_http req =
      let is_method : Text → Bool = λ m. eq_text req.method m in
      if has_traversal_segment req.path
      then error_response 400 "path must not contain a .. segment"
      else if is_method (codes "GET") || is_method (codes "HEAD")
      then serve_get req
      else if is_method (codes "PUT") || is_method (codes "POST") || is_method (codes "PATCH")
      then elim (serve_write req) [ refused r ↦ r | handed target r ↦ r ]
      else error_response 405 "group repository is read-only"
