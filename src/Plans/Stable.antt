-- ===== src/Plans/Stable.antt =====
-- What `move_tenant_to_free` cannot do to the table: repeat an id, or switch a page on.
use truthpage.Prelude.{
  Bool-cases, List, [], arith, count, count_le, inl, inr, map, refl, ℕ, ◌+◌, ◌∙◌, ◌∷◌, ◌≡◌, ◌≤◌,
}
use truthpage.Settings.{Settings}
use truthpage.Tenant.{Tenant}
use truthpage.Subprocessor.{Subprocessor}
use truthpage.Plans.{move_tenant_to_free, switch_off, switch_off_loop}
use truthpage.Plans.Downgrade.{
  HasUniqueIds, count-map, count_ext, has_id, watched, watched-switch_off_loop,
}

count-id-switch_off_loop :
    (i : ℕ) (dropped rows : List Subprocessor) (n : ℕ)
    → count (has_id i) (switch_off_loop dropped rows n).0 ≡ count (has_id i) rows
unfolding switch_off_loop switch_off
count-id-switch_off_loop i [] rows n = refl
count-id-switch_off_loop i (d ∷ rest) rows n = elim (Bool-cases d.monitoring_enabled) [
  | inl on ↦ simp on (
      count-id-switch_off_loop i rest (map (switch_off d) rows) (n + 1)
      ∙ count-map (has_id i) (switch_off d) rows
      ∙ count_ext _ _ rows (λ row. ground arith))
  | inr off ↦ simp off (count-id-switch_off_loop i rest rows n)
]

module _ (cfg : Settings) (tenant : Tenant) (table : List Subprocessor) where
  pub HasUniqueIds-move :
      HasUniqueIds table → HasUniqueIds (move_tenant_to_free cfg tenant table).rows
  unfolding move_tenant_to_free
  HasUniqueIds-move u i = rw (count-id-switch_off_loop i _ table 0) (u i)

  pub watched-move-le :
      (tid : ℕ) → watched tid (move_tenant_to_free cfg tenant table).rows ≤ watched tid table
  unfolding move_tenant_to_free
  watched-move-le tid =
      rw (watched-switch_off_loop tid _ table 0) (count_le _ _ table (λ row h. ground arith))
