-- ===== src/Sweep/Tests.antt =====
-- Instances of the theorem on the heartbeats.
use truthpage.Prelude.{List, [], none, refl, some, true, ℕ, ◌+◌, ◌∷◌, ◌≡◌}
use truthpage.Sweep.{
  Pass, SystemState, Writes, run_passes, run_sweep_cycle, sweep_last_completed_at,
}

abbrev writes : Writes
writes = record {
  started_at = 10;
  completed_at = 90;
  error_at = 91;
  started = true;
  completed = true;
  error = true;
  duration = "0.1s";
}

-- The second pass raises, and the third is not run.
abbrev three : List (Pass ℕ)
three = (λ n. (n + 1, none)) ∷ (λ n. (n + 1, some "ValueError()")) ∷ (λ n. (n + 1, none)) ∷ []

abbrev before : List SystemState
before = record { key = sweep_last_completed_at; value = some "0.2s"; occurred_at = 5 } ∷ []

third_not_run : (run_sweep_cycle writes three 0 before).world ≡ 2
unfolding run_sweep_cycle run_passes
third_not_run = refl
