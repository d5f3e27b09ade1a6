-- ===== src/Group/Index.antt =====
-- internal/formats/group/handler.go: index documents collected from the members and merged.
pub mod Answers
use nexspence_demo.Prelude.{
  Bool, List, Option, Text, [], codes, false, if◌then◌else◌, ltb, none, not, some, ℕ, ◌++◌, ◌||◌,
  ◌∷◌,
}
use nexspence_demo.Prelude.Dict
use nexspence_demo.Prelude.Dict.{Dict}
use nexspence_demo.Domain.{Repository, RoutingRule}
use nexspence_demo.Group.{
  Request, Response, GroupIndexPart, Parts, PartsCache, Fetcher, Merger, Format, Deps,
  has_traversal_segment, error_response, status_of, body_for, from_member, call_member, asked,
}

-- strings.Join(names, ",")
unfoldable pub join_names : List Text → Text
join_names [] = []
join_names (n ∷ []) = n
join_names (n ∷ m ∷ names) = n ++ 44 ∷ join_names (m ∷ names)

-- What one member brings to an index.
pub data Contribution : Type 0 where
  skipped : Contribution
  part_of : GroupIndexPart → Contribution
  fatal_answer : Text → Response → Contribution

-- The parts and the contributing members' names, or the member failure that is relayed.
pub data Collected : Type 0 where
  collected : Parts → List Text → Collected
  failed : Text → Response → Collected

-- What does not change while the members are asked.
pub record Ask : Type 0 where
  pub req : Request
  pub group : Repository
  pub rule : Option RoutingRule
  pub fatal : Option (Text → ℕ → Bool)
  pub source : Text
  pub query : Text

unfoldable pub is_fatal : Option (Text → ℕ → Bool) → Text → ℕ → Bool
is_fatal none source code = false
is_fatal (some fatal) source code = fatal source code

module _ (deps : Deps) where
  unfoldable pub contribution : Ask → Text → Contribution
  unfolding asked call_member status_of is_fatal
  contribution a member = elim (asked deps a.group a.rule a.source member) [
    | none ↦ skipped
    | some format ↦
        let r = call_member deps a.req member a.source a.query format in
        (if ltb (status_of r) 200 || ltb 299 (status_of r)
          then (if is_fatal a.fatal a.source (status_of r) then fatal_answer member r else skipped)
          else part_of (record { member = member; body = r.body }))
  ]

  unfoldable pub collect_index_parts : Ask → List Text → Parts → List Text → Collected
  unfolding contribution
  collect_index_parts a [] parts contributing = collected parts contributing
  collect_index_parts a (member ∷ members) parts contributing = elim (contribution a member) [
    | skipped ↦ collect_index_parts a members parts contributing
    | part_of p ↦ collect_index_parts a members (parts ++ (p ∷ [])) (contributing ++ (member ∷ []))
    | fatal_answer m r ↦ failed m r
  ]

  -- The group's own document at another path, merged without a fetcher of its own.
  unfoldable pub merge_sub_index : Merger → Repository → Text → Parts → Option Text
  merge_sub_index merger group path [] = none
  merge_sub_index merger group path (p ∷ parts) = elim (merger.merge group.name path (p ∷ parts)) [
    | none ↦ none
    | some (body, content_type) ↦ some body
  ]

  unfoldable pub fetch_parts : Ask → List Text → PartsCache → Text → Option Parts × PartsCache
  unfolding collect_index_parts
  fetch_parts a members cache source = elim (Dict.get source cache) [
    | some parts ↦ (some parts, cache)
    | none ↦ elim (collect_index_parts (record a { source = source; query = [] }) members [] []) [
      | failed m r ↦ (none, cache)
      | collected parts names ↦ (some parts, Dict.put source parts cache)
    ]
  ]

  unfoldable pub sub_index_fetcher : Ask → Merger → List Text → Fetcher
  unfolding fetch_parts merge_sub_index
  sub_index_fetcher a merger members cache path =
      let source : Text = elim (merger.source_path path) [ none ↦ path | some s ↦ s ] in
      let (parts, after) = fetch_parts a members cache source in
      if has_traversal_segment path then (none, cache) else elim parts [
        | none ↦ (none, after)
        | some ps ↦ (merge_sub_index merger a.group path ps, after)
      ]

  unfoldable pub merge_index_parts : Ask → Merger → List Text → Text → Parts → Option (Text × Text)
  unfolding sub_index_fetcher
  merge_index_parts a merger members path parts = elim merger.with_fetch [
    | none ↦ merger.merge a.group.name path parts
    | some merge ↦ merge a.group.name path parts (sub_index_fetcher a merger members)
  ]

  -- The merged document, and the page of it where the format pages.
  unfoldable pub merged_and_paged : Ask → Merger → List Text → Text → Parts → Option (Text × Text)
  unfolding merge_index_parts
  merged_and_paged a merger members path parts =
      elim (merge_index_parts a merger members path parts) [
        | none ↦ none
        | some (body, content_type) ↦ elim merger.pager [
          | none ↦ some (body, content_type)
          | some (member_query, page) ↦ elim (page a.req path body) [
            | none ↦ none
            | some cut ↦ some (cut, content_type)
          ]
        ]
      ]

  unfoldable pub data_response : List Text → Text → Text → Response
  data_response contributing content_type body = record {
    code = 200;
    headers =
        (codes "X-Nexspence-Source", join_names contributing)
        ∷ (codes "Content-Type", content_type)
        ∷ [];
    body = body;
  }

  unfoldable pub serve_parts : Ask → Merger → List Text → Text → Parts → List Text → Response
  unfolding merged_and_paged data_response error_response join_names
  serve_parts a merger members path [] contributing =
      error_response 404 "index not found in any member of group"
  serve_parts a merger members path (p ∷ parts) contributing =
      elim (merged_and_paged a merger members path (p ∷ parts)) [
        | some (body, content_type) ↦ data_response contributing content_type body
        | none ↦ elim merger.fatal [
          | none ↦ data_response contributing (codes "application/octet-stream") p.body
          | some fatal ↦
              record (error_response 502 "members of group could not be merged into one index") {
                headers = (codes "X-Nexspence-Source", join_names contributing) ∷ [];
              }
        ]
      ]

  unfoldable pub serve_merged_index :
      Request → Repository → List Text → Option RoutingRule → Merger → Text → Response
  unfolding collect_index_parts serve_parts from_member
  serve_merged_index req group members rule merger source =
      let query : Text = elim merger.pager [
        | none ↦ req.query
        | some (member_query, page) ↦ member_query source req.query
      ] in
      let a : Ask = record {
        req = req;
        group = group;
        rule = rule;
        fatal = merger.fatal;
        source = source;
        query = query;
      } in
      elim (collect_index_parts a members [] []) [
        | failed m r ↦ from_member req m r.code r
        | collected parts names ↦ serve_parts a merger members req.path parts names
      ]
