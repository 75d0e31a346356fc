-- ===== src/Plans.antt =====
-- app/services/plans.py: the free plan. Rows stand for the table of pages; an attribute set on a
-- loaded row is a write to the row with its id. `str(sp.id)` orders UUIDs as the numbers they are.
pub mod Split
pub mod Downgrade
pub mod Stable
mod Tests
use truthpage.Prelude.{
  ℕ, ◌+◌, Bool, true, false, not, List, [], ◌∷◌, ◌++◌, map, ltb, leb, ◌==◌, if◌then◌else◌, length,
  filter,
}
use truthpage.Settings.{Settings}
use truthpage.Tenant.{Tenant, free}
use truthpage.Subprocessor.{Subprocessor}

-- The sort key `(sp.created_at, str(sp.id))`, compared by `<=`.
pub older : Subprocessor → Subprocessor → Bool
older a b =
    if ltb a.created_at b.created_at
    then true
    else if ltb b.created_at a.created_at
    then false
    else leb a.id b.id

pub insert : Subprocessor → List Subprocessor → List Subprocessor
insert sp [] = sp ∷ []
insert sp (x ∷ xs) = let rest = insert sp xs in if older sp x then sp ∷ x ∷ xs else x ∷ rest

-- `sorted(…, key=…)`, which is stable.
pub sorted : List Subprocessor → List Subprocessor
sorted [] = []
sorted (sp ∷ sps) = insert sp (sorted sps)

-- The loop of `free_plan_split`.
pub split_loop :
    ℕ
    → List Subprocessor
    → List Subprocessor
    → List Subprocessor
    → List Subprocessor × List Subprocessor
split_loop limit [] kept dropped = (kept, dropped)
split_loop limit (sp ∷ rest) kept dropped =
    let keep = split_loop limit rest (kept ++ sp ∷ []) dropped in
    let drop = split_loop limit rest kept (dropped ++ sp ∷ []) in
    if not sp.monitoring_enabled then drop else if ltb (length kept) limit then keep else drop

unfoldable pub free_plan_split : List Subprocessor → ℕ → List Subprocessor × List Subprocessor
free_plan_split sps limit = split_loop limit (sorted sps) [] []

-- `sp.monitoring_enabled = False`, seen in the table.
pub switch_off : Subprocessor → Subprocessor → Subprocessor
switch_off sp row = if sp.id == row.id then record row { monitoring_enabled = false } else row

-- The loop over the dropped pages, with its counter.
pub switch_off_loop : List Subprocessor → List Subprocessor → ℕ → List Subprocessor × ℕ
switch_off_loop [] rows switched_off = (rows, switched_off)
switch_off_loop (sp ∷ rest) rows switched_off =
    switch_off_loop rest (if sp.monitoring_enabled then map (switch_off sp) rows else rows)
      (if sp.monitoring_enabled then switched_off + 1 else switched_off)

-- The tenant, the table and the number of pages switched off.
pub record Moved : Type 0 where
  pub tenant : Tenant
  pub rows : List Subprocessor
  pub switched_off : ℕ

unfoldable pub move_tenant_to_free : Settings → Tenant → List Subprocessor → Moved
move_tenant_to_free cfg tenant table =
    let rows = filter (λ sp. sp.tenant_id == tenant.id) table in
    let (kept, dropped) = free_plan_split rows cfg.free_tier_max_subprocessors in
    let (table', switched_off) = switch_off_loop dropped table 0 in
    record {
      tenant = record tenant { subscription_status = free };
      rows = table';
      switched_off = switched_off;
    }
