-- ===== src/Jobs/Due.antt =====
-- The sources that a tick checks.
use truthpage.Prelude.{
  All, All-filter, All-map, All-sort_by, Bool, Bool-cases, IsNodup, IsOrdered, List, Memᴰ, Option,
  Option-cases, Time, [], any, any-Mem, ap, arith, count, count-sort_by, count_le, false, filter,
  inl, inr, map, none, refl, some, sort_by-IsOrdered, true, ℕ, ◌&&◌, ◌<◌, ◌==◌, ◌∙◌, ◌∷◌, ◌≡◌, ◌≤◌,
  ◌⊎◌,
}
use truthpage.Settings.{Settings}
use truthpage.Subprocessor.{Subprocessor}
use truthpage.Tenant.{
  SubscriptionStatus, Tenant, active, canceled, free, past_due, trialing, unpaid,
}
use truthpage.Plans.Downgrade.{HasUniqueIds, count-filter, owned_by, watched}
use truthpage.Jobs.{
  Tables, checked_before, downgrade_expired_trials, due, is_due_source, is_reached, is_served,
}
use truthpage.Jobs.Trials.{downgrade_expired_trials_lem, ends_trial}

checked_before_total : (a b : Subprocessor) → checked_before a b ≡ false → checked_before b a ≡ true
checked_before_total a b h = ground arith

checked_before_trans :
    (a b c : Subprocessor)
    → checked_before a b ≡ true
    → checked_before b c ≡ true
    → checked_before a c ≡ true
checked_before_trans a b c h k = ground arith

count-due :
    (now : Time) (db : Tables) (p : Subprocessor → Bool)
    → count p (due now db) ≡ count (λ sp. p sp && is_due_source now db.tenants sp) db.sources
unfolding due
count-due now db p =
    count-sort_by checked_before p _ ∙ count-filter p (is_due_source now db.tenants) db.sources

-- Monitoring goes on for the tenant: active, on the free plan, or on a trial that has not ended.
pub data IsServed (now : Time) (t : Tenant) : Type 0 where
  pays : t.subscription_status ≡ active → IsServed now t
  uses_free : t.subscription_status ≡ free → IsServed now t
  tries :
      t.subscription_status ≡ trialing
      → (t.trial_ends_at ≡ none)
        ⊎ ((ends_at : Time) × (t.trial_ends_at ≡ some ends_at) × (now < ends_at))
      → IsServed now t

-- The source is watched, a tenant of the table that is served owns it, and its time has come.
pub record IsDue (now : Time) (tenants : List Tenant) (sp : Subprocessor) : Type 0 where
  pub enabled : sp.monitoring_enabled ≡ true
  pub owner : Tenant
  pub known : Memᴰ owner tenants
  pub owns : owner.id ≡ sp.tenant_id
  pub served : IsServed now owner
  pub reached :
      (sp.next_check_at ≡ none) ⊎ ((at : Time) × (sp.next_check_at ≡ some at) × (at ≤ now))

-- `a` was never checked, or `b` was and not before it.
abbrev pub IsLater : Subprocessor → Subprocessor → Type 0
IsLater a b =
    (a.last_checked_at ≡ none)
    ⊎ ((s : Time) × (t : Time) × (a.last_checked_at ≡ some s)
        × (b.last_checked_at ≡ some t)
        × (s ≤ t))

IsServed-of :
    (now : Time) (t : Tenant) (status : SubscriptionStatus)
    → t.subscription_status ≡ status
    → is_served now t ≡ true
    → IsServed now t
IsServed-of now t active q h = pays q
IsServed-of now t free q h = uses_free q
IsServed-of now t trialing q h = tries q (elim (Option-cases t.trial_ends_at) [
  | inl e ↦ inl e
  | inr (ends_at, e) ↦ inr (ends_at, e, ground (arith, q, e))
])
IsServed-of now t past_due q h = absurd (ground (arith, q))
IsServed-of now t canceled q h = absurd (ground (arith, q))
IsServed-of now t unpaid q h = absurd (ground (arith, q))

is_served-of : (now : Time) (t : Tenant) → IsServed now t → is_served now t ≡ true
is_served-of now t (pays q) = ground (arith, q)
is_served-of now t (uses_free q) = ground (arith, q)
is_served-of now t (tries q (inl e)) = ground (arith, q, e)
is_served-of now t (tries q (inr (ends_at, e, running))) = ground (arith, q, e, running)

pub is_due_source-IsDue :
    (now : Time) (tenants : List Tenant) (sp : Subprocessor)
    → is_due_source now tenants sp ≡ true
    → IsDue now tenants sp
is_due_source-IsDue now tenants sp h =
    let (owner, known, passes) =
      any-Mem (λ t. (t.id == sp.tenant_id) && is_served now t) tenants (ground arith) in
    record {
      enabled = ground arith;
      owner = owner;
      known = known;
      owns = ground arith;
      served = IsServed-of now owner _ refl (ground arith);
      reached = elim (Option-cases sp.next_check_at) [
        | inl e ↦ inl e
        | inr (at, e) ↦ inr (at, e, ground (arith, e))
      ];
    }

Memᴰ-any :
    (p : Tenant → Bool) (t : Tenant) (ts : List Tenant) → Memᴰ t ts → p t ≡ true → any p ts ≡ true
Memᴰ-any p t [] m h = elim m [ ]
Memᴰ-any p t (x ∷ ts) (Memᴰ.head q) h = ground (arith, ap p q)
Memᴰ-any p t (x ∷ ts) (Memᴰ.tail m) h = ground (arith, Memᴰ-any p t ts m h)

reached-of :
    (now : Time) (at : Option Time)
    → (at ≡ none) ⊎ ((t : Time) × (at ≡ some t) × (t ≤ now))
    → is_reached at now ≡ true
reached-of now at (inl e) = ground (arith, e)
reached-of now at (inr (t, e, le)) = ground (arith, e, le)

is_due_source-of :
    (now : Time) (tenants : List Tenant) (sp : Subprocessor)
    → IsDue now tenants sp
    → is_due_source now tenants sp ≡ true
is_due_source-of now tenants sp d = ground (
  arith,
  d.enabled,
  reached-of now sp.next_check_at d.reached,
  Memᴰ-any (λ t. (t.id == sp.tenant_id) && is_served now t) d.owner tenants d.known
      (ground (arith, d.owns, is_served-of now d.owner d.served)),
)

checked_before-IsLater : (a b : Subprocessor) → checked_before a b ≡ true → IsLater a b
checked_before-IsLater a b h = elim (Option-cases a.last_checked_at) [
  | inl never ↦ inl never
  | inr (s, at) ↦ elim (Option-cases b.last_checked_at) [
    | inl never ↦ absurd (ground (arith, at, never))
    | inr (t, at') ↦ inr (s, t, at, at', ground (arith, at, at'))
  ]
]

-- Each source stands before those that were checked later.
pub LongestAgoFirst : List Subprocessor → Type 0
LongestAgoFirst [] = Unit
LongestAgoFirst (a ∷ rest) = All (IsLater a) rest × LongestAgoFirst rest

LongestAgoFirst-of : (sps : List Subprocessor) → IsOrdered checked_before sps → LongestAgoFirst sps
unfolding LongestAgoFirst
LongestAgoFirst-of [] o = tt
LongestAgoFirst-of (a ∷ rest) o = (
  All-map (λ b. checked_before a b ≡ true) (IsLater a) rest (checked_before-IsLater a) o.0,
  LongestAgoFirst-of rest o.1,
)

count_eq :
    (p q : Subprocessor → Bool) (xs : List Subprocessor)
    → ((x : Subprocessor) → p x ≡ q x)
    → count p xs ≡ count q xs
count_eq p q [] h = refl
count_eq p q (x ∷ xs) h = ground (arith, h x, count_eq p q xs h)

-- The sources of a tick are rows that are watched, whose tenant is served, and whose time has come;
-- none was checked later than one that follows it, and those never checked come first. Of the rows
-- that pass a test which only such rows pass, each is in as often as it stands in the table.
pub due_lem :
    (now : Time) (db : Tables) (p : Subprocessor → Bool)
    → ((sp : Subprocessor) → p sp ≡ true → IsDue now db.tenants sp)
    → All (IsDue now db.tenants) (due now db)
      × LongestAgoFirst (due now db)
      × (count p (due now db) ≡ count p db.sources)
unfolding due
due_lem now db p only = (
  All-sort_by checked_before (IsDue now db.tenants) _ (
      All-filter (IsDue now db.tenants) (is_due_source now db.tenants) db.sources
        (is_due_source-IsDue now db.tenants)),
  LongestAgoFirst-of _
      (sort_by-IsOrdered checked_before checked_before_total checked_before_trans _),
  count-due now db p
      ∙ count_eq (λ sp. p sp && is_due_source now db.tenants sp) p db.sources
          (λ sp. elim (Bool-cases (p sp)) [
            | inl passed ↦ ground (arith, is_due_source-of now db.tenants sp (only sp passed))
            | inr failed ↦ ground (arith, failed)
          ]),
)

due-le-watched :
    (now : Time) (db : Tables) (tid : ℕ)
    → count (owned_by tid) (due now db) ≤ watched tid db.sources
due-le-watched now db tid =
    let same = count-due now db (owned_by tid) in
    omega (
      arith,
      same,
      count_le (λ sp. owned_by tid sp && is_due_source now db.tenants sp)
          (λ sp. sp.monitoring_enabled && owned_by tid sp) db.sources (λ sp h. ground arith),
    )

-- On tables with unique ids, a tick that ends the trial of a customer checks, in that same tick and
-- in any later one before the tables change, no more of its pages than the free plan allows.
pub ended-due-le :
    (cfg : Settings) (now later : Time) (db : Tables)
    → IsNodup (map (λ t. t.id) db.tenants)
    → HasUniqueIds db.sources
    → let after = downgrade_expired_trials cfg now db in
      All
        (λ t. count (owned_by t.id) (due later after) ≤ cfg.free_tier_max_subprocessors)
        (filter (ends_trial cfg now) db.tenants)
ended-due-le cfg now later db n u =
    let after = downgrade_expired_trials cfg now db in
    All-map _ _ (filter (ends_trial cfg now) db.tenants)
      (λ t h. omega (arith, h, due-le-watched later after t.id))
      (downgrade_expired_trials_lem cfg now db n u).1
