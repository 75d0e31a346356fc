-- ===== src/Plans/Downgrade.antt =====
-- What `move_tenant_to_free` leaves in the table.
use truthpage.Prelude.{
  ==_refl, All, All-map, Bool, Bool-cases, List, [], any, ap, arith, count, count-le-length, false,
  filter, if◌then◌else◌, inl, inr, length, map, min, not, refl, sym, true, ℕ, ◌&&◌, ◌+◌, ◌==◌, ◌∙◌,
  ◌∷◌, ◌≡◌, ◌≤◌,
}
use truthpage.Settings.{Settings}
use truthpage.Tenant.{Tenant, free}
use truthpage.Subprocessor.{Subprocessor}
use truthpage.Plans.Split.{
  enabled, count-free_plan_split, length-free_plan_split, Enabled-free_plan_split,
  count-eq-length_of_Enabled,
}
use truthpage.Plans.{free_plan_split, switch_off, switch_off_loop, move_tenant_to_free}

-- A test on pages that does not look at the switch.
abbrev pub owned_by : ℕ → Subprocessor → Bool
owned_by tid sp = sp.tenant_id == tid

-- How many pages of a tenant are watched.
abbrev pub watched : ℕ → List Subprocessor → ℕ
watched tid = count (λ sp. sp.monitoring_enabled && owned_by tid sp)

abbrev pub has_id : ℕ → Subprocessor → Bool
has_id i sp = sp.id == i

-- The primary key: no two rows have one id.
abbrev pub HasUniqueIds : List Subprocessor → Type 0
HasUniqueIds rows = (i : ℕ) → count (has_id i) rows ≤ 1

-- A page of the list has this id, and is switched off by the loop.
abbrev pub hit : List Subprocessor → Subprocessor → Bool
hit dropped row = any (λ d. d.monitoring_enabled && d.id == row.id) dropped

pub count-map {ℓ κ} :
    {A : Type ℓ} {B : Type κ} (p : B → Bool) (f : A → B) (xs : List A)
    → count p (map f xs) ≡ count (λ x. p (f x)) xs
count-map p f [] = refl
count-map p f (x ∷ xs) = omega (arith, count-map p f xs)

pub count_ext {ℓ} :
    {A : Type ℓ} (p q : A → Bool) (xs : List A) → ((x : A) → p x ≡ q x) → count p xs ≡ count q xs
count_ext p q [] h = refl
count_ext p q (x ∷ xs) h =
    rw (h x) (ap (λ (n : ℕ). (if q x then 1 else 0) + n) (count_ext p q xs h))

pub count-filter {ℓ} :
    {A : Type ℓ} (p q : A → Bool) (xs : List A) → count p (filter q xs) ≡ count (λ x. p x && q x) xs
count-filter p q [] = refl
count-filter p q (x ∷ xs) = ground (arith, count-filter p q xs)

pub count-filter-le {ℓ} :
    {A : Type ℓ} (p q : A → Bool) (xs : List A) → count p (filter q xs) ≤ count p xs
count-filter-le p q [] = omega arith
count-filter-le p q (x ∷ xs) = ground (arith, count-filter-le p q xs)

module _ (tid : ℕ) where
  abbrev pub left : List Subprocessor → Subprocessor → Bool
  left dropped row = (row.monitoring_enabled && owned_by tid row) && not (hit dropped row)

  left-switch_off :
      (d : Subprocessor) (rest : List Subprocessor) (row : Subprocessor)
      → d.monitoring_enabled ≡ true
      → left rest (switch_off d row) ≡ left (d ∷ rest) row
  unfolding switch_off
  left-switch_off d rest row on = ground arith

  left-skip :
      (d : Subprocessor) (rest : List Subprocessor) (row : Subprocessor)
      → d.monitoring_enabled ≡ false
      → left rest row ≡ left (d ∷ rest) row
  left-skip d rest row off = ground arith

  pub watched-switch_off_loop :
      (dropped rows : List Subprocessor) (n : ℕ)
      → watched tid (switch_off_loop dropped rows n).0 ≡ count (left dropped) rows
  unfolding switch_off_loop
  watched-switch_off_loop [] rows n = count_ext _ _ rows (λ row. ground arith)
  watched-switch_off_loop (d ∷ rest) rows n = elim (Bool-cases d.monitoring_enabled) [
    | inl on ↦ simp on (
        watched-switch_off_loop rest (map (switch_off d) rows) (n + 1)
        ∙ count-map (left rest) (switch_off d) rows
        ∙ count_ext _ _ rows (λ row. left-switch_off d rest row on))
    | inr off ↦
        simp off (
          watched-switch_off_loop rest rows n
          ∙ count_ext _ _ rows (λ row. left-skip d rest row off))
  ]

switched_off-switch_off_loop :
    (dropped rows : List Subprocessor) (n : ℕ)
    → (switch_off_loop dropped rows n).1 ≡ n + count enabled dropped
unfolding switch_off_loop
switched_off-switch_off_loop [] rows n = omega arith
switched_off-switch_off_loop (d ∷ rest) rows n = ground (
  arith,
  switched_off-switch_off_loop rest (if d.monitoring_enabled then map (switch_off d) rows else rows)
      (if d.monitoring_enabled then n + 1 else n),
)

-- Each page of the list that is enabled is hit by the list.
hit_self : (ds : List Subprocessor) → All (λ d. d.monitoring_enabled ≡ true → hit ds d ≡ true) ds
hit_self [] = tt
hit_self (d ∷ ds) = (
  (λ on. ground arith),
  All-map (λ x. x.monitoring_enabled ≡ true → hit ds x ≡ true)
      (λ x. x.monitoring_enabled ≡ true → hit (d ∷ ds) x ≡ true) ds (λ x h on. ground (arith, h on))
      (hit_self ds),
)

abbrev spared : List Subprocessor → Subprocessor → Bool
spared dropped row = row.monitoring_enabled && not (hit dropped row)

count-spared-hit :
    (dropped ds : List Subprocessor)
    → All (λ d. d.monitoring_enabled ≡ true → hit dropped d ≡ true) ds
    → count (spared dropped) ds ≡ 0
count-spared-hit dropped [] h = refl
count-spared-hit dropped (d ∷ ds) h = elim (Bool-cases d.monitoring_enabled) [
  | inl on ↦ ground (arith, h.0 on, count-spared-hit dropped ds h.1)
  | inr off ↦ ground (arith, count-spared-hit dropped ds h.1)
]

not_hit :
    (ds : List Subprocessor) (row : Subprocessor)
    → count (has_id row.id) ds ≡ 0
    → hit ds row ≡ false
not_hit [] row h = refl
not_hit (d ∷ ds) row h = ground (arith, not_hit ds row)

count-spared_kept :
    (dropped kept : List Subprocessor)
    → count enabled kept ≡ length kept
    → ((i : ℕ) → count (has_id i) kept + count (has_id i) dropped ≤ 1)
    → count (spared dropped) kept ≡ length kept
count-spared_kept dropped [] e u = refl
count-spared_kept dropped (k ∷ kept) e u = ground (
  arith,
  count-le-length enabled kept,
  not_hit dropped k (ground (arith, u k.id, ==_refl k.id)),
  count-spared_kept dropped kept (ground (arith, count-le-length enabled kept))
      (λ i. omega (arith, u i)),
)

module _ (cfg : Settings) (tenant : Tenant) (table : List Subprocessor) where
  abbrev pages : List Subprocessor
  pages = filter (owned_by tenant.id) table

  abbrev parts : List Subprocessor × List Subprocessor
  parts = free_plan_split pages cfg.free_tier_max_subprocessors

  watched-pages : count enabled pages ≡ watched tenant.id table
  watched-pages = count-filter enabled (owned_by tenant.id) table

  count-pages-le : (p : Subprocessor → Bool) → count p pages ≤ count p table
  count-pages-le p = count-filter-le p (owned_by tenant.id) table

  left-parts :
      count (left tenant.id parts.1) table
      ≡ count (spared parts.1) parts.0 + count (spared parts.1) parts.1
  left-parts =
      count_ext _ _ table (λ row. ground arith)
      ∙ sym (count-filter (spared parts.1) (owned_by tenant.id) table)
      ∙ sym (count-free_plan_split (spared parts.1) pages cfg.free_tier_max_subprocessors)

  watched-move : HasUniqueIds table → count (left tenant.id parts.1) table ≡ length parts.0
  watched-move u = omega (
    arith,
    left-parts,
    count-spared-hit parts.1 parts.1 (hit_self parts.1),
    count-spared_kept parts.1 parts.0
        (count-eq-length_of_Enabled parts.0
          (Enabled-free_plan_split pages cfg.free_tier_max_subprocessors))
        (λ i. omega (
          arith,
          u i,
          count-pages-le (has_id i),
          count-free_plan_split (has_id i) pages cfg.free_tier_max_subprocessors,
        )),
  )

  -- On a table with unique ids, the tenant is on the free plan afterwards, as many of its pages are
  -- watched as before or as the free limit allows, whichever is less, and the number returned is
  -- that of the pages switched off.
  pub move_tenant_to_free_lem :
      HasUniqueIds table
      → let m = move_tenant_to_free cfg tenant table in
        (m.tenant.subscription_status ≡ free)
        × (watched tenant.id m.rows ≡ min cfg.free_tier_max_subprocessors (watched tenant.id table))
        × (m.switched_off + watched tenant.id m.rows ≡ watched tenant.id table)
  unfolding move_tenant_to_free
  move_tenant_to_free_lem u =
      let after = watched-switch_off_loop tenant.id parts.1 table 0 ∙ watched-move u in
      let size = length-free_plan_split pages cfg.free_tier_max_subprocessors in
      let keeps =
        count-eq-length_of_Enabled parts.0
          (Enabled-free_plan_split pages cfg.free_tier_max_subprocessors) in
      let all = count-free_plan_split enabled pages cfg.free_tier_max_subprocessors in
      let off = switched_off-switch_off_loop parts.1 table 0 in
      (
        refl,
        after ∙ size ∙ ap (min cfg.free_tier_max_subprocessors) watched-pages,
        omega (arith, after, off, keeps, all, watched-pages),
      )
