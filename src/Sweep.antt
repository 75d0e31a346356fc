-- ===== src/Sweep.antt =====
-- app/scheduler/jobs.py, run_sweep_cycle, and the heartbeats that it writes (app/services/system_state.py
-- and app/db/models/system_state.py). The passes of the cycle are arguments: each turns the world
-- into the next one, and may raise an exception, given by its `repr`. A write of a heartbeat may fail.
pub mod Heartbeat
mod Tests
use truthpage.Prelude.{
  Bool, List, Option, String, Time, [], any, find?, if◌then◌else◌, is_some, map, none, some, str_eq,
  take_chars, ◌++◌, ◌∷◌,
}

pub record SystemState : Type 0 where
  pub key : String
  pub value : Option String
  pub occurred_at : Time

abbrev pub sweep_last_started_at : String
sweep_last_started_at = "sweep.last_started_at"

abbrev pub sweep_last_completed_at : String
sweep_last_completed_at = "sweep.last_completed_at"

abbrev pub sweep_last_error : String
sweep_last_error = "sweep.last_error"

abbrev pub has_key : String → SystemState → Bool
has_key key row = str_eq row.key key

unfoldable pub get_state : String → List SystemState → Option SystemState
get_state key table = find? (has_key key) table

-- The row with the key is overwritten, or one is added.
unfoldable pub set_state : String → Option String → Time → List SystemState → List SystemState
set_state key value now table =
    if any (has_key key) table
    then map
        (λ row. if has_key key row then record row { value = value; occurred_at = now } else row)
        table
    else table ++ record { key = key; value = value; occurred_at = now } ∷ []

-- Whatever goes wrong in the write is swallowed.
unfoldable pub record_state :
    Bool → String → Option String → Time → List SystemState → List SystemState
unfolding set_state
record_state written key value now table = if written then set_state key value now table else table

abbrev pub Pass {ℓ} : Type ℓ → Type ℓ
Pass W = W → W × Option String

-- The statements of the `try` block, up to the first that raises.
unfoldable pub run_passes {ℓ} : {W : Type ℓ} → List (Pass W) → Pass W
run_passes [] world = (world, none)
run_passes (pass ∷ passes) world =
    let (next, raised) = pass world in
    let rest = run_passes passes next in if is_some raised then (next, raised) else rest

-- The clock at the three writes, whether each goes through, and the text of the duration.
pub record Writes : Type 0 where
  pub started_at : Time
  pub completed_at : Time
  pub error_at : Time
  pub started : Bool
  pub completed : Bool
  pub error : Bool
  pub duration : String

-- `repr(exc)[:2000]`
abbrev pub error_value : Option String → Option String
error_value none = none
error_value (some e) = some (take_chars 2000 e)

unfoldable pub close_cycle : Writes → Option String → List SystemState → List SystemState
close_cycle w none table =
    record_state w.error sweep_last_error none w.error_at
      (record_state w.completed sweep_last_completed_at (some w.duration) w.completed_at table)
close_cycle w (some e) table =
    record_state w.error sweep_last_error (error_value (some e)) w.error_at table

-- The world, the exception that is raised again, and the heartbeats.
pub record Cycled {ℓ} (W : Type ℓ) : Type ℓ where
  pub world : W
  pub raised : Option String
  pub table : List SystemState

unfoldable pub run_sweep_cycle {ℓ} :
    {W : Type ℓ} → Writes → List (Pass W) → W → List SystemState → Cycled W
unfolding close_cycle record_state
run_sweep_cycle w passes world table =
    let begun = record_state w.started sweep_last_started_at none w.started_at table in
    let (after, raised) = run_passes passes world in
    record { world = after; raised = raised; table = close_cycle w raised begun }
