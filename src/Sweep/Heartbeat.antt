-- ===== src/Sweep/Heartbeat.antt =====
-- What the heartbeats say of a cycle.
use truthpage.Prelude.{List, Option, String, Time, if◌then◌else◌, none, some}
use truthpage.Sweep.{SystemState, get_state, has_key}

-- What the table says under a key, and since when.
abbrev pub reading : Option SystemState → Option (Option String × Time)
reading none = none
reading (some row) = some (row.value, row.occurred_at)

unfoldable pub read : String → List SystemState → Option (Option String × Time)
read key table = reading (get_state key table)

abbrev rewrite : String → Option String → Time → SystemState → SystemState
rewrite key value now row =
    if has_key key row then record row { value = value; occurred_at = now } else row
