-- ===== src/Tier2.antt =====
-- app/services/tier2_budget.py: the daily quotas of browser runs. The single UPDATE statement is one
-- step on the row.
pub mod Daily
mod Tests
use truthpage.Prelude.{Bool, Option, false, if◌then◌else◌, leb, none, not, some, ℕ, ◌+◌, ◌==◌}
use truthpage.Settings.{Settings}
use truthpage.Tenant.{Tenant, tier2_daily_limit}
use truthpage.Subprocessor.{Subprocessor}

-- tier2_daily_count and tier2_daily_date of a row; a date is a number of days.
pub record Quota : Type 0 where
  pub daily_count : ℕ
  pub daily_date : Option ℕ

abbrev pub same_day : Option ℕ → ℕ → Bool
same_day none today = false
same_day (some d) today = d == today

-- The UPDATE: 1 on a row of another day or of none, one more on a row of today.
unfoldable pub atomic_spend : ℕ → Quota → Quota
atomic_spend today q = record {
  daily_count = if not (same_day q.daily_date today) then 1 else q.daily_count + 1;
  daily_date = some today;
}

abbrev pub source_quota : Subprocessor → Quota
source_quota sp = record { daily_count = sp.tier2_daily_count; daily_date = sp.tier2_daily_date }

abbrev pub tenant_quota : Tenant → Quota
tenant_quota t = record { daily_count = t.tier2_daily_count; daily_date = t.tier2_daily_date }

unfoldable pub try_spend_source_budget : Settings → ℕ → Subprocessor → Subprocessor × Bool
unfolding atomic_spend
try_spend_source_budget cfg today sp =
    let q = atomic_spend today (source_quota sp) in
    (
      record sp { tier2_daily_count = q.daily_count; tier2_daily_date = q.daily_date },
      leb q.daily_count cfg.tier2_daily_per_source,
    )

unfoldable pub try_spend_tenant_budget : Settings → ℕ → Tenant → Tenant × Bool
unfolding atomic_spend
try_spend_tenant_budget cfg today t =
    let q = atomic_spend today (tenant_quota t) in
    (
      record t { tier2_daily_count = q.daily_count; tier2_daily_date = q.daily_date },
      leb q.daily_count (tier2_daily_limit cfg t),
    )
