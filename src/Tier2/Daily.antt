-- ===== src/Tier2/Daily.antt =====
-- How many runs a quota grants on a day.
use truthpage.Prelude.{
  List, Option, [], ap, arith, days, if◌then◌else◌, refl, some, ℕ, ◌&&◌, ◌+◌, ◌-◌, ◌<◌, ◌==◌, ◌∷◌,
  ◌≡◌, ◌≤◌,
}
use truthpage.Settings.{Settings}
use truthpage.Subprocessor.{Subprocessor}
use truthpage.Tier2.{same_day, try_spend_source_budget}

-- A source asks for a run on each of these days; how many are granted on day `d`.
unfoldable pub granted : Settings → ℕ → List ℕ → Subprocessor → ℕ
granted cfg d [] sp = 0
granted cfg d (today ∷ days) sp =
    let (sp', within) = try_spend_source_budget cfg today sp in
    (if (today == d) && within then 1 else 0) + granted cfg d days sp'

-- The clock does not go back: each day is at least the one before.
abbrev pub Ascends : ℕ → List ℕ → Type 0
Ascends b [] = Unit
Ascends b (d ∷ ds) = (b ≤ d) × Ascends d ds

module _ (cfg : Settings) (d : ℕ) where
  granted_past :
      (b : ℕ) (days : List ℕ) (sp : Subprocessor)
      → Ascends b days
      → d < b
      → granted cfg d days sp ≡ 0
  unfolding granted
  granted_past b [] sp a h = refl
  granted_past b (x ∷ xs) sp a h =
      ground (arith, granted_past x xs (try_spend_source_budget cfg x sp).0 a.1)

  granted_same_day :
      (b : ℕ) (days : List ℕ) (sp : Subprocessor)
      → Ascends b days
      → d ≤ b
      → sp.tier2_daily_date ≡ some d
      → granted cfg d days sp ≤ cfg.tier2_daily_per_source - sp.tier2_daily_count
  unfolding granted try_spend_source_budget
  granted_same_day b [] sp a h e = omega arith
  granted_same_day b (x ∷ xs) sp a h e = ground (
    arith,
    ap (λ (o : Option ℕ). same_day o x) e,
    granted_same_day x xs (try_spend_source_budget cfg x sp).0 a.1,
    granted_past x xs (try_spend_source_budget cfg x sp).0 a.1,
  )

  -- Over days that do not go back, a source is granted at most its daily quota of browser runs on
  -- any one day.
  pub granted-le :
      (b : ℕ) (days : List ℕ) (sp : Subprocessor)
      → Ascends b days
      → granted cfg d days sp ≤ cfg.tier2_daily_per_source
  unfolding granted try_spend_source_budget
  granted-le b [] sp a = omega arith
  granted-le b (x ∷ xs) sp a = ground (
    arith,
    granted_same_day x xs (try_spend_source_budget cfg x sp).0 a.1,
    granted-le x xs (try_spend_source_budget cfg x sp).0 a.1,
  )
