-- ===== src/Jobs/Tests.antt =====
-- Instances of the theorems on the scheduler.
use truthpage.Prelude.{
  All, [], arith, count, filter, if◌then◌else◌, map, none, refl, some, sort_by, true, ◌∷◌, ◌≡◌, ◌≤◌,
}
use truthpage.Settings.{Settings, defaults}
use truthpage.Subprocessor.{Subprocessor}
use truthpage.Tenant.{trialing, trial_expired}
use truthpage.Plans.Downgrade.{HasUniqueIds, owned_by, watched}
use truthpage.Jobs.{Tables, downgrade_expired_trials, due, is_due_source}
use truthpage.Jobs.Trials.{downgrade_expired_trials_lem, ends_trial, to_free}
use truthpage.Jobs.Due.{IsDue, LongestAgoFirst, due_lem, ended-due-le, is_due_source-IsDue}
use truthpage.Samples.{acme, stripe}

abbrev operated : Settings
operated = record defaults { admin_emails = "admin@t.test" ∷ []; free_tier_max_subprocessors = 1 }

-- A customer and the operator, both on trials that are over.
abbrev tables : Tables
tables = record {
  tenants =
      record acme { subscription_status = trialing; trial_ends_at = some 50 }
      ∷ record acme {
        id = 2;
        email = some "Admin@t.test";
        subscription_status = trialing;
        trial_ends_at = some 50;
      }
      ∷ [];
  sources =
      record stripe { id = 1; created_at = 5 }
      ∷ record stripe { id = 2; created_at = 3; last_checked_at = none }
      ∷ record stripe { id = 3; tenant_id = 2 }
      ∷ [];
}

tables-HasUniqueIds : HasUniqueIds tables.sources
tables-HasUniqueIds i = ground arith

downgrade_expired_trials_example :
    let after = downgrade_expired_trials operated 100 tables in
    (after.tenants ≡ map (λ t. if ends_trial operated 100 t then to_free t else t) tables.tenants)
    × All (λ t. watched t.id after.sources ≤ 1) (filter (ends_trial operated 100) tables.tenants)
downgrade_expired_trials_example =
    downgrade_expired_trials_lem operated 100 tables (refl, (refl, tt)) tables-HasUniqueIds

-- The customer is moved and the operator is not.
only_customer : map (λ t. t.id) (filter (ends_trial operated 100) tables.tenants) ≡ 1 ∷ []
unfolding trial_expired
only_customer = refl

first_source-IsDue :
    (sp : Subprocessor) → is_due_source 10 tables.tenants sp ≡ true → IsDue 10 tables.tenants sp
first_source-IsDue = is_due_source-IsDue 10 tables.tenants

due_example :
    All (IsDue 10 tables.tenants) (due 10 tables)
    × LongestAgoFirst (due 10 tables)
    × (count (is_due_source 10 tables.tenants) (due 10 tables)
        ≡ count (is_due_source 10 tables.tenants) tables.sources)
due_example = due_lem 10 tables (is_due_source 10 tables.tenants) first_source-IsDue

-- Never checked first.
never_checked_first : map (λ sp. sp.id) (due 10 tables) ≡ 2 ∷ 1 ∷ 3 ∷ []
unfolding due sort_by
never_checked_first = refl

ended-due-le_example :
    All
      (λ t. count (owned_by t.id) (due 100 (downgrade_expired_trials operated 100 tables)) ≤ 1)
      (filter (ends_trial operated 100) tables.tenants)
ended-due-le_example = ended-due-le operated 100 100 tables (refl, (refl, tt)) tables-HasUniqueIds
