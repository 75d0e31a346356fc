-- ===== src/Tier2/Tests.antt =====
-- An instance of the bound on the daily runs.
use truthpage.Prelude.{[], arith, ◌∷◌, ◌≤◌}
use truthpage.Settings.{defaults}
use truthpage.Tier2.Daily.{granted, granted-le}
use truthpage.Samples.{stripe}

granted-le_example : granted defaults 5 (4 ∷ 5 ∷ 5 ∷ 5 ∷ 6 ∷ []) stripe ≤ 2
granted-le_example = granted-le defaults 5 4 (4 ∷ 5 ∷ 5 ∷ 5 ∷ 6 ∷ []) stripe (omega arith)
