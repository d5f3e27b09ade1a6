-- ===== src/Downloads.antt =====
-- internal/service/download_counter.go over IncrementDownloads of
-- internal/repository/postgres/asset_repo.go.
pub mod Credited
use nexspence_demo.Prelude.{
  Bool, List, Option, Text, [], eq_text, false, if◌then◌else◌, none, some, true, ℕ, ◌+◌, ◌∷◌,
}
use nexspence_demo.Prelude.Dict
use nexspence_demo.Prelude.Dict.{Dict}

-- The columns of assets and components that the statements read and write.
pub record AssetCount : Type 0 where
  pub id : Text
  pub component : Option Text
  pub downloads : ℕ

pub record ComponentCount : Type 0 where
  pub id : Text
  pub downloads : ℕ

-- DownloadCounter, and the tables behind it.
pub record DownloadCounter : Type 0 where
  pub pending : Dict ℕ
  pub assets : List AssetCount
  pub components : List ComponentCount

-- m[key] of a map of counts: 0 for a missing key
unfoldable pub count_of : Text → Dict ℕ → ℕ
count_of id m = elim (Dict.get id m) [ none ↦ 0 | some n ↦ n ]

-- Add
unfoldable pub add_download : DownloadCounter → Text → DownloadCounter
unfolding count_of
add_download c id = record c { pending = Dict.put id (count_of id c.pending + 1) c.pending }

unfoldable pub in_component : Text → AssetCount → Bool
in_component id a = elim a.component [ none ↦ false | some c ↦ eq_text c id ]

-- SUM(c.n) over the assets of a component
unfoldable pub sum_for : (Text → ℕ) → Text → List AssetCount → ℕ
unfolding in_component
sum_for n id [] = 0
sum_for n id (a ∷ assets) =
    let rest = sum_for n id assets in if in_component id a then n a.id + rest else rest

-- The two statements of IncrementDownloads, for the counts `n`.
unfoldable pub credit_assets : (Text → ℕ) → List AssetCount → List AssetCount
credit_assets n [] = []
credit_assets n (a ∷ assets) =
    record a { downloads = a.downloads + n a.id } ∷ credit_assets n assets

unfoldable pub credit_components :
    (Text → ℕ) → List AssetCount → List ComponentCount → List ComponentCount
unfolding sum_for
credit_components n assets [] = []
credit_components n assets (c ∷ components) =
    record c { downloads = c.downloads + sum_for n c.id assets }
    ∷ credit_components n assets components

-- IncrementDownloads in its transaction; `done` is false when a statement fails.
unfoldable pub increment_downloads : Bool → DownloadCounter → Dict ℕ → DownloadCounter
unfolding credit_assets credit_components count_of
increment_downloads done c [] = c
increment_downloads false c (e ∷ batch) = c
increment_downloads true c (e ∷ batch) =
    let n : Text → ℕ = λ id. count_of id (e ∷ batch) in
    record c {
      assets = credit_assets n c.assets;
      components = credit_components n c.assets c.components;
    }

-- Flush: the batch is taken before it is written, and a failed one is dropped.
unfoldable pub flush : Bool → DownloadCounter → DownloadCounter
unfolding increment_downloads
flush done c = increment_downloads done (record c { pending = [] }) c.pending

-- What happens to a counter: a download, or a flush, of the ticker or at the end.
pub data Event : Type 0 where
  downloaded : Text → Event
  flushed : Bool → Event

unfoldable pub run_events : DownloadCounter → List Event → DownloadCounter
unfolding add_download flush
run_events c [] = c
run_events c (downloaded id ∷ events) = run_events (add_download c id) events
run_events c (flushed done ∷ events) = run_events (flush done c) events
