-- ===== src/Samples/Groups.antt =====
-- A group of two members on concrete requests.
use nexspence_demo.Prelude.{
  All, List, Text, [], codes, eq_text, false, if◌then◌else◌, none, refl, some, true, ◌++◌, ◌∷◌, ◌≡◌,
  ◌⊎◌,
}
use nexspence_demo.Prelude.Dict
use nexspence_demo.Prelude.Dict.{Dict}
use nexspence_demo.Domain.{Repository, texts}
use nexspence_demo.Group.{
  Request, Response, Merger, Deps, error_response, first_reply, has_traversal_segment,
}
use nexspence_demo.Group.Read.{Passes, Answers, first_reply-cases}
use nexspence_demo.Group.Index.{Ask, collected, collect_index_parts}
use nexspence_demo.Group.Index.Answers.{
  is_success, documents, first_failure, collect_index_parts-all,
}
use nexspence_demo.Group.Serve.{handed, serve_write}
use nexspence_demo.Group.Serve.Writes.{serve_write-hosted}

abbrev repository_of : Text → Text → Repository
repository_of name kind = record {
  id = name;
  name = name;
  format = 9 ∷ [];
  kind = kind;
  blob_store_id = none;
  online = true;
  format_config = some ((codes "member_names", texts ((1 ∷ []) ∷ (2 ∷ []) ∷ [])) ∷ []);
  proxy_config = none;
  quota_bytes = none;
  routing_rule_id = none;
  allow_anonymous = false;
}

abbrev the_group : Repository
the_group = repository_of (3 ∷ []) (codes "group")

abbrev second_member : Repository
second_member = repository_of (2 ∷ []) (codes "hosted")

-- The first member is a proxy that has nothing, the second answers with its name.
abbrev answer : Request → Response
answer req =
    if eq_text req.repo_name (1 ∷ [])
    then record { code = 404; headers = []; body = [] }
    else record { code = 200; headers = []; body = req.repo_name }

abbrev merger : Merger
merger = record {
  source_path = λ p. some p;
  merge = λ name path parts. some (name, path);
  with_fetch = none;
  fatal = none;
  pager = none;
}

abbrev deps : Deps
deps = record {
  repos = λ n. Dict.get n (
      ((1 ∷ []), repository_of (1 ∷ []) (codes "proxy"))
      ∷ ((2 ∷ []), second_member)
      ∷ ((3 ∷ []), the_group)
      ∷ []);
  formats = λ f. some (record { serve = answer; merger = none });
  routing_rules = λ id. none;
  allow = λ rule path. true;
}

abbrev get_it : Request
get_it = record { method = codes "GET"; repo_name = 3 ∷ []; path = 8 ∷ []; query = [] }

first_reply-cases_example :
    (All (Passes deps get_it the_group none) ((1 ∷ []) ∷ (2 ∷ []) ∷ [])
      × (first_reply deps get_it the_group none ((1 ∷ []) ∷ (2 ∷ []) ∷ [])
          ≡ error_response 404 "artifact not found in any member of group"))
    ⊎ ((pre : List Text) × ((m : Text) × ((post : List Text) × (((1 ∷ []) ∷ (2 ∷ []) ∷ [])
              ≡ pre ++ m ∷ post)
            × All (Passes deps get_it the_group none) pre
            × Answers deps get_it the_group none m
                (first_reply deps get_it the_group none ((1 ∷ []) ∷ (2 ∷ []) ∷ [])))))
first_reply-cases_example = first_reply-cases deps get_it the_group none ((1 ∷ []) ∷ (2 ∷ []) ∷ [])

handed_to_second :
    serve_write deps get_it ≡ handed (2 ∷ []) (record { code = 200; headers = []; body = 2 ∷ [] })
unfolding serve_write Dict.get eq_text
handed_to_second = refl

serve_write-hosted_example :
    (group r : Repository) × (deps.repos get_it.repo_name ≡ some group)
    × (deps.repos (2 ∷ []) ≡ some r)
    × (r.online ≡ true)
    × (r.kind ≡ codes "hosted")
    × (r.format ≡ group.format)
serve_write-hosted_example =
    serve_write-hosted deps get_it (2 ∷ []) (record { code = 200; headers = []; body = 2 ∷ [] })
      handed_to_second

abbrev ask : Ask
ask = record {
  req = get_it;
  group = the_group;
  rule = none;
  fatal = none;
  source = 8 ∷ [];
  query = [];
}

collect_index_parts-all_example :
    collect_index_parts deps ask ((1 ∷ []) ∷ (2 ∷ []) ∷ []) [] []
    ≡ collected (record { member = 2 ∷ []; body = 2 ∷ [] } ∷ []) ((2 ∷ []) ∷ [])
unfolding first_failure Dict.get eq_text documents is_success nexspence_demo.Group.asked
    nexspence_demo.Group.status_of nexspence_demo.Group.call_member
collect_index_parts-all_example = collect_index_parts-all deps ask ((1 ∷ []) ∷ (2 ∷ []) ∷ [])
