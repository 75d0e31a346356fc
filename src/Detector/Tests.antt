-- ===== src/Detector/Tests.antt =====
-- Runs of the trimming.
use truthpage.Prelude.{
  List, String, [], join, length, refl, show, true, ◌++◌, ◌+◌, ◌-◌, ◌∷◌, ◌≡◌, ◌≤◌,
}
use truthpage.Detector.{group_hunks, keep_loop, trim}
use truthpage.Detector.Hunks.{cost, keep_loop_lem, nothing_kept}

abbrev diff : String
diff = "--- a\n+++ b\n@@ 1\n-x\n@@ 2\n-y\n@@ 3\n+z"

abbrev hunks : List (List String)
hunks = ("@@ 1" ∷ "-x" ∷ []) ∷ ("@@ 2" ∷ "-y" ∷ []) ∷ ("@@ 3" ∷ "+z" ∷ []) ∷ []

grouped : group_hunks ("@@ 1" ∷ "-x" ∷ "@@ 2" ∷ "-y" ∷ "@@ 3" ∷ "+z" ∷ []) [] ≡ hunks
unfolding group_hunks
grouped = refl

trimmed :
    trim diff 127 ("--- a" ∷ "+++ b" ∷ []) ("@@ 1" ∷ "-x" ∷ "@@ 2" ∷ "-y" ∷ "@@ 3" ∷ "+z" ∷ [])
    ≡ "--- a\n+++ b\n@@ 1\n-x\n[... 1 further changed section(s) omitted ...]\n@@ 3\n+z"
unfolding trim group_hunks keep_loop join show
trimmed = refl

keep_loop_example :
    let kept = keep_loop hunks 16 3 0 true nothing_kept in
    (omitted : List (List String)) × (hunks ≡ kept.head ++ (omitted ++ kept.tail))
    × (length omitted ≡ 3 - length kept.head - length kept.tail)
    × (cost kept.head + cost kept.tail ≤ 16)
    × (cost hunks ≤ 16 → omitted ≡ [])
keep_loop_example = keep_loop_lem hunks 16
