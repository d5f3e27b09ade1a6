-- ===== src/Samples/Versions.antt =====
-- The loose order of versions on concrete inputs.
use nexspence_demo.Prelude.{Text, codes, eq_text, refl, trim_prefix, ◌≡◌}
use nexspence_demo.Formats.Version.{below, above, compare_loose_versions}
use nexspence_demo.Formats.Version.Chain.{Chains, compare_loose_versions-Chains}

abbrev release : Text
release = codes "1.0"

abbrev preview : Text
preview = codes "1.0-rc"

abbrev patch : Text
patch = codes "1.0.1"

compare_loose_versions-Chains_example :
    Chains
      (compare_loose_versions preview release)
      (compare_loose_versions release patch)
      (compare_loose_versions preview patch)
compare_loose_versions-Chains_example = compare_loose_versions-Chains preview release patch

preview_below_release : compare_loose_versions preview release ≡ below
unfolding compare_loose_versions nexspence_demo.Prelude.eq_text nexspence_demo.Prelude.trim_prefix
preview_below_release = refl

patch_above_release : compare_loose_versions patch release ≡ above
unfolding compare_loose_versions nexspence_demo.Prelude.eq_text nexspence_demo.Prelude.trim_prefix
patch_above_release = refl

ten_above_nine : compare_loose_versions (codes "1.10") (codes "1.9") ≡ above
unfolding compare_loose_versions nexspence_demo.Prelude.eq_text nexspence_demo.Prelude.trim_prefix
ten_above_nine = refl
