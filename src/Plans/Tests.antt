-- ===== src/Plans/Tests.antt =====
-- Instances of the theorems on the free plan.
use truthpage.Prelude.{List, [], arith, min, ◌+◌, ◌∷◌, ◌≡◌}
use truthpage.Settings.{defaults}
use truthpage.Tenant.{free}
use truthpage.Subprocessor.{Subprocessor}
use truthpage.Plans.{free_plan_split, move_tenant_to_free}
use truthpage.Plans.Split.{KeepsOldest, free_plan_split-KeepsOldest}
use truthpage.Plans.Downgrade.{watched, HasUniqueIds, move_tenant_to_free_lem}
use truthpage.Samples.{acme, stripe}

abbrev pages : List Subprocessor
pages =
    record stripe { id = 1; created_at = 5 }
    ∷ record stripe { id = 2; created_at = 3 }
    ∷ record stripe { id = 3; created_at = 9 }
    ∷ record stripe { id = 4; created_at = 7 }
    ∷ []

free_plan_split-KeepsOldest_example : KeepsOldest (free_plan_split pages 2)
free_plan_split-KeepsOldest_example = free_plan_split-KeepsOldest pages 2

pages-HasUniqueIds : HasUniqueIds pages
pages-HasUniqueIds i = ground arith

move_tenant_to_free_example :
    let m = move_tenant_to_free defaults acme pages in
    (m.tenant.subscription_status ≡ free)
    × (watched 1 m.rows ≡ min 3 (watched 1 pages))
    × (m.switched_off + watched 1 m.rows ≡ watched 1 pages)
move_tenant_to_free_example = move_tenant_to_free_lem defaults acme pages pages-HasUniqueIds
