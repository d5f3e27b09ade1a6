-- ===== src/Oci/Pagination.antt =====
-- internal/formats/oci/pagination.go: pages of a sorted list of entries.
pub mod Walk
use nexspence_demo.Prelude.{
  Bool, List, Option, Text, [], false, if◌then◌else◌, leb, length, lt_text, none, not, some, take,
  true, ℕ, ◌==◌, ◌||◌, ◌∷◌,
}

pub record PageParams : Type 0 where
  pub n : ℕ
  pub last : Text

-- strconv.Atoi on the raw ?n=: `none` where it is absent, malformed or not positive.
unfoldable pub page_params : Option ℕ → Text → PageParams
page_params none last = record { n = 0; last = last }
page_params (some k) last = record { n = k; last = last }

-- sort.SearchStrings on a sorted list, as what is left from there on: the entries from the first
-- that is not smaller than `last`.
unfoldable pub from_first : List Text → Text → List Text
from_first [] last = []
from_first (e ∷ entries) last =
    let rest = from_first entries last in if lt_text e last then rest else e ∷ entries

-- The loop that skips the run of entries that are at most `last`.
unfoldable pub skip_run : List Text → Text → List Text
skip_run [] last = []
skip_run (e ∷ entries) last =
    let rest = skip_run entries last in if not (lt_text last e) then rest else e ∷ entries

unfoldable pub after_cursor : List Text → Text → List Text
unfolding from_first skip_run
after_cursor entries [] = entries
after_cursor entries (c ∷ last) = skip_run (from_first entries (c ∷ last)) (c ∷ last)

unfoldable pub paginate : List Text → PageParams → List Text × Bool
unfolding after_cursor
paginate entries p =
    let rest = after_cursor entries p.last in
    if p.n == 0 || leb (length rest) p.n then (rest, false) else (take p.n rest, true)

unfoldable pub last_of : List Text → Text
last_of [] = []
last_of (e ∷ []) = e
last_of (e ∷ f ∷ page) = last_of (f ∷ page)

-- SetNextLink: the cursor of the Link header, where one is set.
unfoldable pub next_cursor : List Text → Bool → Option Text
unfolding last_of
next_cursor [] more = none
next_cursor (e ∷ page) more = if more then some (last_of (e ∷ page)) else none
