-- ===== src/Samples/Services.antt =====
-- Uploads, locks, content selectors and download counts on small inputs.
use nexspence_demo.Accounts.Rows.{ok}
use nexspence_demo.Downloads.Credited.{run_events-credited}
use nexspence_demo.Prelude.{
  Bool, List, Option, Text, [], ap, arith, codes, eq_text, eq_text_refl, false, false≢true,
  has_prefix, inl, inr, length, none, refl, some, sym, take, true, ℕ, ◌++◌, ◌+◌, ◌∙◌, ◌∷◌, ◌≡◌, ◌≢◌,
}
use nexspence_demo.Prelude.Dict
use nexspence_demo.Prelude.Dict.{Dict, get-put}
use nexspence_demo.Oci.Uploads.{too_large, BlobBackend, Bytes, Body}
use nexspence_demo.Oci.Uploads.Staged.{IsStaging}
use nexspence_demo.Oci.Uploads.Chunks.{IsAppended}
use nexspence_demo.Oci.Uploads.Capped.{append-IsAppended}
use nexspence_demo.Locks.{
  holds_value, del_if_match, release, Redis, LockHandle, Acquired, acquire, lock,
}
use nexspence_demo.Locks.Exclusive.{releasing, IsHeld, System, here, after, lock-stays}
use nexspence_demo.Downloads.{
  flushed, downloaded, run_events, Event, DownloadCounter, AssetCount, ComponentCount,
}
use nexspence_demo.Selectors.Cached.{evaluate-decision, started}
use nexspence_demo.Selectors.{SelectorService, Tables, ContentSelector, evaluate}

-- A store that grows blobs in place.
abbrev held : Dict Bytes → Text → Bytes
held w k = elim (Dict.get k w) [ none ↦ [] | some bs ↦ bs ]

abbrev growing : BlobBackend (Dict Bytes)
growing = record {
  put = λ w k bs. (Dict.put k bs w, true);
  get = λ w k. Dict.get k w;
  exists = λ w k. some (elim (Dict.get k w) [ none ↦ false | some bs ↦ true ]);
  size_of = λ w k. elim (Dict.get k w) [ none ↦ none | some bs ↦ some (length bs) ];
  delete = λ w k. Dict.remove k w;
  appendable = true;
  append_blob =
      λ w k r. (Dict.put k (held w k ++ r.bytes) w, some (length (held w k) + length r.bytes));
  truncate_blob = λ w k n. (Dict.put k (take n (held w k)) w, true);
  appended_size = λ w k. some (elim (Dict.get k w) [ none ↦ none | some bs ↦ some (length bs) ]);
  finalize_append = λ w k. (w, true);
  abort_append = λ w k. w;
}

get-put_same : (k : Text) (bs : Bytes) (w : Dict Bytes) → Dict.get k (Dict.put k bs w) ≡ some bs
get-put_same k bs w = ground (arith, get-put k k bs w, eq_text_refl k)

held-staged : (w : Dict Bytes) (k : Text) (bs : Bytes) → Dict.get k w ≡ some bs → held w k ≡ bs
held-staged w k bs e = rw (e, held) refl

growing-IsStaging : IsStaging growing (λ w k. Dict.get k w)
growing-IsStaging = record {
  sized = λ w k n e. sized_of (Dict.get k w) n e;
  stat = λ w k n p e. absurd (false≢true (sym p));
  whole = λ w k bs p e. e;
  put_stages = λ w k bs e. get-put_same k bs w;
  append_grows = λ w k r n bs e h. (
    get-put_same k (held w k ++ r.bytes) w ∙ ap (λ x. some (x ++ r.bytes)) (held-staged w k bs h),
    (let total : length (held w k) + length r.bytes ≡ n = cc in
        sym total ∙ ap (λ x. length x + length r.bytes) (held-staged w k bs h)),
  );
  truncate_shrinks = λ w k n bs e h.
      get-put_same k (take n (held w k)) w ∙ ap (λ x. some (take n x)) (held-staged w k bs h);
}
  where
    sized_of :
        (o : Option Bytes) (n : ℕ)
        → some (elim o [ none ↦ none | some bs ↦ some (length bs) ]) ≡ some (some n)
        → (bs : Bytes) × (o ≡ some bs) × (length bs ≡ n)
    sized_of none n e = cc
    sized_of (some bs) n e = (bs, refl, cc)

abbrev session_id : Text
session_id = codes "0123456789abcdef0123456789abcdef"

abbrev one_session : Dict Bytes
one_session = (codes "_uploads/docker/0123456789abcdef0123456789abcdef", 1 ∷ 2 ∷ []) ∷ []

abbrev two_more : Body
two_more = record { bytes = 3 ∷ 4 ∷ []; broken = false }

append-IsAppended_example :
    IsAppended growing
      (λ w k. Dict.get k w)
      growing-IsStaging
      3
      session_id
      (1 ∷ 2 ∷ [])
      two_more
      (one_session, too_large)
unfolding Dict.get nexspence_demo.Prelude.eq_text nexspence_demo.Oci.Uploads.key
    nexspence_demo.Oci.Uploads.append Dict.put
append-IsAppended_example =
    append-IsAppended growing (λ w k. Dict.get k w) growing-IsStaging 3 one_session session_id
      (1 ∷ 2 ∷ []) two_more refl

abbrev mine : LockHandle
mine = record { key = codes "gc"; token = codes "b" }

abbrev stale : LockHandle
stale = record { key = codes "gc"; token = [] }

abbrev busy : Redis
busy = record { values = (codes "gc", codes "b") ∷ []; reachable = true }

abbrev two_nodes : System
two_nodes = record { redis = busy; handed = mine ∷ stale ∷ [] }

lock-stays_example :
    IsHeld mine two_nodes × ((acquire busy (codes "gc") (codes "c")).1 ≢ lock stale)
unfolding nexspence_demo.Locks.Exclusive.IsTold eq_text Dict.get release del_if_match holds_value
lock-stays_example =
    lock-stays mine two_nodes two_nodes (codes "c") stale
      (record { told = ((refl, tt), (tt, tt)); given = inl refl; stored = refl })
      (after two_nodes two_nodes two_nodes (here two_nodes)
        (releasing two_nodes stale (inr (inl refl)) (λ e. cc)))

abbrev counter : DownloadCounter
counter = record {
  pending = [];
  assets = record { id = codes "a"; component = some (codes "c"); downloads = 5 } ∷ [];
  components = record { id = codes "c"; downloads = 7 } ∷ [];
}

abbrev busy_day : List Event
busy_day =
    downloaded (codes "a")
    ∷ flushed false
    ∷ downloaded (codes "a")
    ∷ downloaded (codes "a")
    ∷ flushed true
    ∷ []

run_events-credited_example :
    ((run_events counter busy_day).assets
      ≡ record { id = codes "a"; component = some (codes "c"); downloads = 7 } ∷ [])
    × ((run_events counter busy_day).components ≡ record { id = codes "c"; downloads = 9 } ∷ [])
unfolding nexspence_demo.Downloads.credit_assets nexspence_demo.Downloads.credit_components
    nexspence_demo.Downloads.Credited.credits nexspence_demo.Prelude.eq_text
run_events-credited_example = run_events-credited counter busy_day

abbrev docs_only : ContentSelector
docs_only = record {
  id = codes "s";
  name = codes "docs";
  description = [];
  expression = codes "/docs";
}

abbrev one_selector : Tables
one_selector = record {
  selectors = docs_only ∷ [];
  privileges =
      record {
        id = codes "p";
        name = codes "read";
        kind = codes "wildcard";
        selector = some (codes "s");
      }
      ∷ [];
  role_privileges = (codes "r", codes "p") ∷ [];
  user_roles = (codes "7", codes "r") ∷ [];
  fails = λ x. false;
}

-- A toy language: a text holds for the paths that begin with it.
abbrev begins : Text → Text → Text → Text → Option Bool
begins p format path repository = some (has_prefix path p)

abbrev idle : SelectorService (λ t. some t) (λ a. true) (λ a. some a) begins
idle = record { tables = one_selector; programs = [] }

evaluate-decision_example :
    (evaluate
      (λ t. some t)
      (λ a. true)
      (λ a. some a)
      begins
      idle
      (codes "7")
      (codes "main")
      (codes "raw")
      (codes "/docs/a")).1
    ≡ ok (true, true)
unfolding nexspence_demo.Selectors.Cached.decision eq_text
    nexspence_demo.Selectors.selectors_of_user nexspence_demo.Selectors.compile has_prefix
evaluate-decision_example =
    evaluate-decision (λ t. some t) (λ a. true) (λ a. some a) begins idle (codes "7") (codes "main")
      (codes "raw") (codes "/docs/a") (started one_selector)
