-- ===== src/Group.antt =====
-- internal/formats/group/handler.go: a group answers for its members.
-- A request is what the group reads of it and passes on; a response is a status, headers and a body.
-- The text of an error body is its message, without the JSON around it.
pub mod Read
pub mod Index
pub mod Serve
use nexspence_demo.Prelude.{
  Bool, List, Option, String, Text, [], any_of, codes, eq_text, if◌then◌else◌, none, not, some, ℕ,
  ◌==◌, ◌∷◌,
}
use nexspence_demo.Prelude.Dict
use nexspence_demo.Prelude.Dict.{Dict}
use nexspence_demo.Domain.{Repository, RoutingRule, group_member_names, group_writable_member}

pub record Request : Type 0 where
  pub method : Text
  pub repo_name : Text
  pub path : Text
  pub query : Text

pub record Response : Type 0 where
  pub code : ℕ
  pub headers : Dict Text
  pub body : Text

-- What a merger is given of a member: its name and its document.
pub record GroupIndexPart : Type 0 where
  pub member : Text
  pub body : Text

abbrev pub Parts : Type 0
Parts = List GroupIndexPart

-- The cache of a sub-index fetcher, by source path.
abbrev pub PartsCache : Type 0
PartsCache = Dict Parts

-- A fetcher of the group's own documents, which takes its cache and returns it.
abbrev pub Fetcher : Type 0
Fetcher = PartsCache → Text → Option Text × PartsCache

-- formats.GroupIndexMerger and the interfaces that a merger may also have: `with_fetch` for
-- GroupIndexDependentMerger, `fatal` for GroupIndexStrictMerger, `member_query` and `page` for
-- GroupIndexPaginator. `none` for a body is an error.
pub record Merger : Type 0 where
  pub source_path : Text → Option Text
  pub merge : Text → Text → Parts → Option (Text × Text)
  pub with_fetch : Option (Text → Text → Parts → Fetcher → Option (Text × Text))
  pub fatal : Option (Text → ℕ → Bool)
  pub pager : Option ((Text → Text → Text) × (Request → Text → Text → Option Text))

-- A format's handler: what it answers, in the course of one request to the group, to the requests that
-- the group hands it, and its merger if it has one. Equal requests to it are taken to have equal answers.
pub record Format : Type 0 where
  pub serve : Request → Response
  pub merger : Option Merger

-- What the handler depends on: the repositories, where an error and a missing row are alike `none`;
-- the formats; the routing rules; and the verdict of a rule on a path.
pub record Deps : Type 0 where
  pub repos : Text → Option Repository
  pub formats : Text → Option Format
  pub routing_rules : Text → Option RoutingRule
  pub allow : Option RoutingRule → Text → Bool

-- strings.Split(p, "/")
unfoldable pub split : Text → List Text
split [] = [] ∷ []
split (c ∷ p) =
    let rest = split p in
    if c == 47 then [] ∷ rest else elim rest [ [] ↦ (c ∷ []) ∷ [] | seg ∷ segs ↦ (c ∷ seg) ∷ segs ]

unfoldable pub has_traversal_segment : Text → Bool
unfolding split
has_traversal_segment p = any_of (λ seg. eq_text seg (codes "..")) (split p)

unfoldable pub error_response : ℕ → String → Response
error_response code message = record { code = code; headers = []; body = codes message }

unfoldable pub status_of : Response → ℕ
status_of r = if r.code == 0 then 200 else r.code

unfoldable pub body_for : Text → Text → Text
body_for method body = if eq_text method (codes "HEAD") then [] else body

-- A member's answer under the group's headers.
unfoldable pub from_member : Request → Text → ℕ → Response → Response
unfolding body_for
from_member req member code r = record {
  code = code;
  headers = Dict.put (codes "X-Nexspence-Source") member r.headers;
  body = body_for req.method r.body;
}

module _ (deps : Deps) where
  unfoldable pub eligible_member : Text → Repository → Option Repository
  eligible_member member group = elim (deps.repos member) [
    | none ↦ none
    | some r ↦
        (if not r.online
          then none
          else if eq_text r.kind (codes "group")
          then none
          else if not (eq_text r.format group.format)
          then none
          else some r)
  ]

  unfoldable pub call_member : Request → Text → Text → Text → Format → Response
  call_member req member path query format =
      format.serve (record req { repo_name = member; path = path; query = query })

  -- The format's handler for a member that is asked about a path, if it is asked.
  unfoldable pub asked : Repository → Option RoutingRule → Text → Text → Option Format
  unfolding eligible_member
  asked group rule path member =
      if not (deps.allow rule path)
      then none
      else elim (eligible_member member group) [ none ↦ none | some r ↦ deps.formats r.format ]

  -- The answer of one member on the read path: `none` where the loop goes on to the next.
  unfoldable pub reply_of : Request → Text → Option Format → Option Response
  unfolding call_member status_of from_member
  reply_of req member none = none
  reply_of req member (some format) =
      let r = call_member req member req.path req.query format in
      if status_of r == 404 then none else some (from_member req member (status_of r) r)

  unfoldable pub member_reply : Request → Repository → Option RoutingRule → Text → Option Response
  unfolding asked reply_of
  member_reply req group rule member = reply_of req member (asked group rule req.path member)

  unfoldable pub first_reply : Request → Repository → Option RoutingRule → List Text → Response
  unfolding member_reply error_response
  first_reply req group rule [] = error_response 404 "artifact not found in any member of group"
  first_reply req group rule (member ∷ members) = elim (member_reply req group rule member) [
    | none ↦ first_reply req group rule members
    | some r ↦ r
  ]
