-- ===== src/Jobs.antt =====
-- app/scheduler/jobs.py: the end of trials, and the query for the sources that are due. The tables of
-- tenants and of sources are lists of rows.
pub mod Trials
pub mod Due
mod Tests
use truthpage.Prelude.{
  Bool, List, Option, Time, [], any, false, filter, if◌then◌else◌, leb, lower, ltb, map, mem_str,
  none, not, some, sort_by, str_eq, true, ◌&&◌, ◌==◌, ◌||◌, ◌∷◌,
}
use truthpage.Settings.{Settings}
use truthpage.Tenant.{
  Tenant, SubscriptionStatus, active, trialing, free, is_trialing, trial_expired,
}
use truthpage.Subprocessor.{Subprocessor}
use truthpage.Plans.{move_tenant_to_free}

pub record Tables : Type 0 where
  pub tenants : List Tenant
  pub sources : List Subprocessor

-- `tenant.email and tenant.email.lower() in settings.admin_email_set`
abbrev pub is_admin : Settings → Tenant → Bool
is_admin cfg t = elim t.email [
  | none ↦ false
  | some email ↦ not (str_eq email "") && mem_str (lower email) cfg.admin_emails
]

-- The plan of one tenant, seen in both tables.
unfoldable pub downgrade : Settings → Tenant → Tables → Tables
downgrade cfg t db = record {
  tenants =
      map (λ r. if r.id == t.id then (move_tenant_to_free cfg r db.sources).tenant else r)
        db.tenants;
  sources = (move_tenant_to_free cfg t db.sources).rows;
}

unfoldable pub downgrade_loop : Settings → List Tenant → Tables → Tables
downgrade_loop cfg [] db = db
downgrade_loop cfg (t ∷ expired) db =
    downgrade_loop cfg expired (if is_admin cfg t then db else downgrade cfg t db)

unfoldable pub downgrade_expired_trials : Settings → Time → Tables → Tables
downgrade_expired_trials cfg now db =
    downgrade_loop cfg (filter (λ t. trial_expired t now) db.tenants) db

-- `MONITORED_STATUSES`
abbrev pub is_monitored : SubscriptionStatus → Bool
is_monitored active = true
is_monitored trialing = true
is_monitored free = true
is_monitored _ = false

-- `trial_ends_at IS NULL OR trial_ends_at > now`
abbrev pub still_running : Option Time → Time → Bool
still_running none now = true
still_running (some ends_at) now = ltb now ends_at

abbrev pub is_served : Time → Tenant → Bool
is_served now t =
    is_monitored t.subscription_status
    && (not (is_trialing t.subscription_status) || still_running t.trial_ends_at now)

-- `next_check_at <= now OR next_check_at IS NULL`
abbrev pub is_reached : Option Time → Time → Bool
is_reached none now = true
is_reached (some at) now = leb at now

-- The join with the tenant, and the conditions of the query.
abbrev pub is_due_source : Time → List Tenant → Subprocessor → Bool
is_due_source now tenants sp =
    sp.monitoring_enabled
    && any (λ t. (t.id == sp.tenant_id) && is_served now t) tenants
    && is_reached sp.next_check_at now

-- `nullsfirst(last_checked_at)`
abbrev pub nulls_first : Option Time → Option Time → Bool
nulls_first none b = true
nulls_first (some a) none = false
nulls_first (some a) (some b) = leb a b

abbrev pub checked_before : Subprocessor → Subprocessor → Bool
checked_before a b = nulls_first a.last_checked_at b.last_checked_at

-- The query of `sweep_due_subprocessors`. Rows that compare equal stay in the order of the table.
unfoldable pub due : Time → Tables → List Subprocessor
due now db = sort_by checked_before (filter (is_due_source now db.tenants) db.sources)
