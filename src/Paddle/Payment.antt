-- ===== src/Paddle/Payment.antt =====
-- A payment that is reported twice.
use truthpage.Prelude.{
  All, All-of_All, Bool-cases, List, Option, String, [], ap, arith, false, filter, get_or,
  if◌then◌else◌, inl, inr, map, map-map, map_on, mem_str, none, ok, refl, some, subst, true, ℕ,
  ◌==◌, ◌∙◌, ◌∷◌, ◌≡◌, ◌⊎◌,
}
use truthpage.Settings.{Settings}
use truthpage.Tenant.{PlanTier, Tenant, active, growth, starter}
use truthpage.Jobs.{Tables}
use truthpage.Webhooks.{is_empty, scalar_one_or_none}
use truthpage.Paddle.{
  PaddleData, activate, by_reference, customer_or_none, find_tenant_by_id,
  handle_transaction_completed, is_sold, overwrite, plan_from_items, put_tenant, with_id,
}

filter-put :
    (i : ℕ) (t : Tenant) (xs : List Tenant)
    → (t.id == i) ≡ true
    → filter (with_id i) (map (λ r. if with_id t.id r then t else r) xs)
      ≡ map (λ r. t) (filter (with_id i) xs)
filter-put i t [] h = refl
filter-put i t (x ∷ xs) h = ground (arith, filter-put i t xs h)

map-one_of :
    (i : ℕ) (t u : Tenant) (xs : List Tenant)
    → filter (with_id i) xs ≡ t ∷ []
    → (u.id == i) ≡ true
    → scalar_one_or_none (filter (with_id i) (map (λ r. if with_id u.id r then u else r) xs))
      ≡ ok (some u)
unfolding scalar_one_or_none
map-one_of i t u xs one same =
    ap scalar_one_or_none (filter-put i u xs same ∙ ap (map (λ (r : Tenant). u)) one)

put-put : (u : Tenant) (db : Tables) → put_tenant u (put_tenant u db) ≡ put_tenant u db
put-put u db =
    ap (λ (ts : List Tenant). record db { tenants = ts })
      (map-map (λ r. if with_id u.id r then u else r) (λ r. if with_id u.id r then u else r)
          db.tenants
        ∙ map_on _ _ db.tenants (All-of_All _ db.tenants (λ r. ground arith)))

overwrite-again : (new old : Option String) → overwrite new (overwrite new old) ≡ overwrite new old
overwrite-again none old = refl
overwrite-again (some value) old = ground arith

get_or-again {ℓ} :
    {A : Type ℓ} (new : Option A) (old : A) → get_or new (get_or new old) ≡ get_or new old
get_or-again none old = refl
get_or-again (some a) old = refl

activate-again :
    (cfg : Settings) (d : PaddleData) (t : Tenant)
    → activate cfg d (activate cfg d t) ≡ activate cfg d t
activate-again cfg d t = cc (
  overwrite-again (customer_or_none d) t.paddle_customer_id,
  overwrite-again d.subscription_id t.paddle_subscription_id,
  get_or-again (plan_from_items cfg d.price_ids) t.plan,
)

-- The event names a tenant by an id.
pub record Refers (uuid : String → Option ℕ) (d : PaddleData) (i : ℕ) : Type 0 where
  pub text : String
  pub named : d.tenant_id ≡ some text
  pub given : is_empty text ≡ false
  pub parsed : uuid text ≡ some i

by_reference-found :
    (uuid : String → Option ℕ) (i : ℕ) (text : String) (ref : Option String) (ts : List Tenant)
    → ref ≡ some text
    → is_empty text ≡ false
    → uuid text ≡ some i
    → by_reference uuid ref ts ≡ scalar_one_or_none (filter (with_id i) ts)
unfolding find_tenant_by_id
by_reference-found uuid i text ref ts named given parsed =
    rw (named, given, find_tenant_by_id, parsed) refl

handle-found :
    (cfg : Settings) (uuid : String → Option ℕ) (d : PaddleData) (i : ℕ) (db : Tables) (t : Tenant)
    → Refers uuid d i
    → scalar_one_or_none (filter (with_id i) db.tenants) ≡ ok (some t)
    → handle_transaction_completed cfg uuid d db ≡ ok (put_tenant (activate cfg d t) db)
unfolding handle_transaction_completed
handle-found cfg uuid d i db t r found =
    simp (by_reference-found uuid i r.text d.tenant_id db.tenants r.named r.given r.parsed ∙ found)
      refl

with_id-of_one :
    (i : ℕ) (t : Tenant) (xs : List Tenant) → All (λ x. with_id i x ≡ true) (filter (with_id i) xs)
with_id-of_one i t [] = tt
with_id-of_one i t (x ∷ xs) = elim (Bool-cases (with_id i x)) [
  | inl e ↦ rw e (e, with_id-of_one i t xs)
  | inr e ↦ rw e (with_id-of_one i t xs)
]

-- A price that is configured and among those of the items.
abbrev pub IsPaid : PaddleData → String → Type 0
IsPaid d price = (is_empty price ≡ false) × (mem_str price d.price_ids ≡ true)

-- The plan after a payment: that of a price that is configured and among those of the items, and the
-- old one where there is none.
pub data PaidPlan (cfg : Settings) (d : PaddleData) (old : PlanTier) : PlanTier → Type 0 where
  paid_starter :
      (price : String)
      → (price ≡ cfg.paddle_price_id_starter) ⊎ (price ≡ cfg.paddle_price_id_starter_yearly)
      → IsPaid d price
      → PaidPlan cfg d old starter
  paid_growth :
      (price : String)
      → (price ≡ cfg.paddle_price_id_growth) ⊎ (price ≡ cfg.paddle_price_id_growth_yearly)
      → IsPaid d price
      → PaidPlan cfg d old growth
  unknown_price :
      is_sold cfg.paddle_price_id_starter d.price_ids ≡ false
      → is_sold cfg.paddle_price_id_starter_yearly d.price_ids ≡ false
      → is_sold cfg.paddle_price_id_growth d.price_ids ≡ false
      → is_sold cfg.paddle_price_id_growth_yearly d.price_ids ≡ false
      → PaidPlan cfg d old old

plan-PaidPlan :
    (cfg : Settings) (d : PaddleData) (old : PlanTier)
    → PaidPlan cfg d old (get_or (plan_from_items cfg d.price_ids) old)
unfolding plan_from_items
plan-PaidPlan cfg d old = elim (Bool-cases (is_sold cfg.paddle_price_id_starter d.price_ids)) [
  | inl p ↦ rw p (paid_starter _ (inl refl) (ground arith, ground arith))
  | inr np ↦ elim (Bool-cases (is_sold cfg.paddle_price_id_starter_yearly d.price_ids)) [
    | inl p ↦ rw (np, p) (paid_starter _ (inr refl) (ground arith, ground arith))
    | inr ny ↦ elim (Bool-cases (is_sold cfg.paddle_price_id_growth d.price_ids)) [
      | inl p ↦ rw (np, ny, p) (paid_growth _ (inl refl) (ground arith, ground arith))
      | inr ng ↦ elim (Bool-cases (is_sold cfg.paddle_price_id_growth_yearly d.price_ids)) [
        | inl p ↦ rw (np, ny, ng, p) (paid_growth _ (inr refl) (ground arith, ground arith))
        | inr ngy ↦ rw (np, ny, ng, ngy) (unknown_price np ny ng ngy)
      ]
    ]
  ]
]

-- A payment that names its tenant, by an id that exactly one row of the table has, leaves that row
-- active, on the plan that was paid for or, where no configured price is among the items, on the plan
-- it had, and leaves the sources alone; the same event again changes nothing.
pub handle_transaction_completed-again :
    (cfg : Settings) (uuid : String → Option ℕ) (d : PaddleData) (i : ℕ) (db : Tables) (t : Tenant)
    → Refers uuid d i
    → filter (with_id i) db.tenants ≡ t ∷ []
    → (after : Tables) × (u : Tenant) × (handle_transaction_completed cfg uuid d db ≡ ok after)
      × (handle_transaction_completed cfg uuid d after ≡ ok after)
      × (after.sources ≡ db.sources)
      × (filter (with_id i) after.tenants ≡ u ∷ [])
      × (u.subscription_status ≡ active)
      × PaidPlan cfg d t.plan u.plan
unfolding scalar_one_or_none
handle_transaction_completed-again cfg uuid d i db t r one =
    let u = activate cfg d t in
    let mine = (subst (All (λ x. with_id i x ≡ true)) one (with_id-of_one i t db.tenants)).0 in
    (
      put_tenant u db,
      u,
      handle-found cfg uuid d i db t r (ap scalar_one_or_none one),
      handle-found cfg uuid d i (put_tenant u db) u r (map-one_of i t u db.tenants one mine)
          ∙ ap (λ (v : Tenant). ok (put_tenant v (put_tenant u db))) (activate-again cfg d t)
          ∙ ap (λ (e : Tables). ok e) (put-put u db),
      refl,
      filter-put i u db.tenants mine ∙ ap (map (λ (r : Tenant). u)) one,
      refl,
      plan-PaidPlan cfg d t.plan,
    )
