-- ===== src/Jobs/Trials.antt =====
-- What the end of trials does to the tables.
use truthpage.Prelude.{
  All, All-map, All-of_All, Bool, Bool-cases, IsNodup, List, Time, [], ap, arith, false, filter,
  if◌then◌else◌, inl, inr, is_mem, is_mem-filter, map, map-map, map_on, not, refl, subst, sym, true,
  ℕ, ◌&&◌, ◌==◌, ◌∙◌, ◌∷◌, ◌≡◌, ◌≤◌,
}
use truthpage.Settings.{Settings}
use truthpage.Tenant.{Tenant, free, trial_expired}
use truthpage.Plans.{move_tenant_to_free}
use truthpage.Plans.Downgrade.{HasUniqueIds, move_tenant_to_free_lem, watched}
use truthpage.Plans.Stable.{HasUniqueIds-move, watched-move-le}
use truthpage.Jobs.{Tables, downgrade, downgrade_expired_trials, downgrade_loop, is_admin}

abbrev pub to_free : Tenant → Tenant
to_free t = record t { subscription_status = free }

-- The tenants that are moved: no admin, and the trial is over.
abbrev pub ends_trial : Settings → Time → Tenant → Bool
ends_trial cfg now t = trial_expired t now && not (is_admin cfg t)

abbrev is_customer : Settings → Tenant → Bool
is_customer cfg t = not (is_admin cfg t)

filter-filter {ℓ} :
    {A : Type ℓ} (p q : A → Bool) (xs : List A)
    → filter q (filter p xs) ≡ filter (λ x. p x && q x) xs
filter-filter p q [] = refl
filter-filter p q (x ∷ xs) = ground (arith, filter-filter p q xs)

map_id {ℓ} : {A : Type ℓ} (f : A → A) (xs : List A) → ((x : A) → f x ≡ x) → map f xs ≡ xs
map_id f [] h = refl
map_id f (x ∷ xs) h = cc (h x, map_id f xs h)

skip_admin :
    (cfg : Settings) (t : Tenant) (ts : List Tenant) (db : Tables)
    → is_admin cfg t ≡ true
    → downgrade_loop cfg (t ∷ ts) db ≡ downgrade_loop cfg ts db
unfolding downgrade_loop
skip_admin cfg t ts db admin = rw admin refl

move_customer :
    (cfg : Settings) (t : Tenant) (ts : List Tenant) (db : Tables)
    → is_admin cfg t ≡ false
    → downgrade_loop cfg (t ∷ ts) db ≡ downgrade_loop cfg ts (downgrade cfg t db)
unfolding downgrade_loop
move_customer cfg t ts db customer = rw customer refl

-- The tenants of a list, by their ids, are on the free plan.
abbrev freed : Settings → List Tenant → Tenant → Tenant
freed cfg ts r =
    if is_mem r.id (map (λ t. t.id) (filter (is_customer cfg) ts)) then to_free r else r

freed_again :
    (cfg : Settings) (t : Tenant) (ts : List Tenant) (r : Tenant)
    → is_admin cfg t ≡ false
    → freed cfg ts (if r.id == t.id then to_free r else r) ≡ freed cfg (t ∷ ts) r
freed_again cfg t ts r customer = ground arith

tenants-downgrade :
    (cfg : Settings) (t : Tenant) (db : Tables)
    → (downgrade cfg t db).tenants ≡ map (λ r. if r.id == t.id then to_free r else r) db.tenants
unfolding downgrade move_tenant_to_free
tenants-downgrade cfg t db = refl

tenants-downgrade_loop :
    (cfg : Settings) (ts : List Tenant) (db : Tables)
    → (downgrade_loop cfg ts db).tenants ≡ map (freed cfg ts) db.tenants
unfolding downgrade_loop
tenants-downgrade_loop cfg [] db = sym (map_id _ db.tenants (λ r. refl))
tenants-downgrade_loop cfg (t ∷ ts) db = elim (Bool-cases (is_admin cfg t)) [
  | inl admin ↦
      ap (λ (d : Tables). d.tenants) (skip_admin cfg t ts db admin)
      ∙ tenants-downgrade_loop cfg ts db
      ∙ map_on (freed cfg ts) (freed cfg (t ∷ ts)) db.tenants
          (All-of_All _ db.tenants (λ r. rw admin refl))
  | inr customer ↦
      ap (λ (d : Tables). d.tenants) (move_customer cfg t ts db customer)
      ∙ tenants-downgrade_loop cfg ts (downgrade cfg t db)
      ∙ ap (map (freed cfg ts)) (tenants-downgrade cfg t db)
      ∙ map-map (freed cfg ts) (λ r. if r.id == t.id then to_free r else r) db.tenants
      ∙ map_on (λ r. freed cfg ts (if r.id == t.id then to_free r else r)) (freed cfg (t ∷ ts))
          db.tenants (All-of_All _ db.tenants (λ r. freed_again cfg t ts r customer))
]

watched-downgrade_loop :
    (cfg : Settings) (tid : ℕ) (ts : List Tenant) (db : Tables)
    → watched tid (downgrade_loop cfg ts db).sources ≤ watched tid db.sources
unfolding downgrade_loop downgrade
watched-downgrade_loop cfg tid [] db = omega arith
watched-downgrade_loop cfg tid (t ∷ ts) db =
    let step = if is_admin cfg t then db else downgrade cfg t db in
    ground (arith, watched-downgrade_loop cfg tid ts step, watched-move-le cfg t db.sources tid)

limit-downgrade_loop :
    (cfg : Settings) (ts : List Tenant) (db : Tables)
    → HasUniqueIds db.sources
    → All
        (λ t. watched t.id (downgrade_loop cfg ts db).sources ≤ cfg.free_tier_max_subprocessors)
        (filter (is_customer cfg) ts)
unfolding downgrade
limit-downgrade_loop cfg [] db u = tt
limit-downgrade_loop cfg (t ∷ ts) db u = elim (Bool-cases (is_admin cfg t)) [
  | inl admin ↦ rw (skip_admin cfg t ts db admin, admin) (limit-downgrade_loop cfg ts db u)
  | inr customer ↦
      rw (move_customer cfg t ts db customer, customer)
        (
          omega (
            arith,
            watched-downgrade_loop cfg t.id ts (downgrade cfg t db),
            (move_tenant_to_free_lem cfg t db.sources u).1,
          ),
          limit-downgrade_loop cfg ts (downgrade cfg t db) (HasUniqueIds-move cfg t db.sources u),
        )
]

-- On tables with unique ids, a customer whose trial is over is moved to the free plan, and every
-- other tenant, an administrator's too, is as before; of a tenant that was moved at most as many
-- pages are watched as the free plan allows.
pub downgrade_expired_trials_lem :
    (cfg : Settings) (now : Time) (db : Tables)
    → IsNodup (map (λ t. t.id) db.tenants)
    → HasUniqueIds db.sources
    → let after = downgrade_expired_trials cfg now db in
      (after.tenants ≡ map (λ t. if ends_trial cfg now t then to_free t else t) db.tenants)
      × All
          (λ t. watched t.id after.sources ≤ cfg.free_tier_max_subprocessors)
          (filter (ends_trial cfg now) db.tenants)
unfolding downgrade_expired_trials
downgrade_expired_trials_lem cfg now db n u =
    let expired = filter (λ t. trial_expired t now) db.tenants in
    let same = filter-filter (λ t. trial_expired t now) (is_customer cfg) db.tenants in
    (
      tenants-downgrade_loop cfg expired db
          ∙ map_on (freed cfg expired) (λ t. if ends_trial cfg now t then to_free t else t)
              db.tenants
              (All-map _ _ db.tenants
                (λ t e. rw same (ap (λ (b : Bool). if b then to_free t else t) e))
                (is_mem-filter (λ t. t.id) (ends_trial cfg now) db.tenants n)),
      subst
          (All (λ t.
            watched t.id (downgrade_loop cfg expired db).sources ≤ cfg.free_tier_max_subprocessors))
          same (limit-downgrade_loop cfg expired db u),
    )
