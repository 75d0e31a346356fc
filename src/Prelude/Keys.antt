-- ===== src/Prelude/Keys.antt =====
-- Rows with a numeric key: membership of a key, distinct keys, and updates under a key.
use Prim.Native.Nat.{ℕ}
use mathlib.Core.Path.{◌≡◌, refl}
use mathlib.Core.Logic.{inl, inr}
use mathlib.Core.Bool.{Bool, true, false}
use mathlib.Core.List.{List, [], ◌∷◌, map}
use native.Mathlib.Omega.{arith}
use truthpage.Prelude.Tests.{if◌then◌else◌, ◌==◌, ==_refl, Bool-cases}
use truthpage.Prelude.Lists.{All, filter, length, All-zip}

-- `n in ns`
abbrev pub is_mem : ℕ → List ℕ → Bool
is_mem n [] = false
is_mem n (m ∷ ms) = if n == m then true else is_mem n ms

-- No key twice: what a primary key guarantees of a table.
abbrev pub IsNodup : List ℕ → Type 0
IsNodup [] = Unit
IsNodup (n ∷ ns) = (is_mem n ns ≡ false) × IsNodup ns

pub map_on {ℓ κ} :
    {A : Type ℓ} {B : Type κ} (f g : A → B) (xs : List A)
    → All (λ x. f x ≡ g x) xs
    → map f xs ≡ map g xs
map_on f g [] h = refl
map_on f g (x ∷ xs) h = cc (h.0, map_on f g xs h.1)

pub map-map {ℓ κ μ} :
    {A : Type ℓ} {B : Type κ} {C : Type μ} (g : B → C) (f : A → B) (xs : List A)
    → map g (map f xs) ≡ map (λ x. g (f x)) xs
map-map g f [] = refl
map-map g f (x ∷ xs) = cc (map-map g f xs)

pub length-map {ℓ κ} :
    {A : Type ℓ} {B : Type κ} (f : A → B) (xs : List A) → length (map f xs) ≡ length xs
length-map f [] = refl
length-map f (x ∷ xs) = omega (arith, length-map f xs)

module _ {ℓ} {A : Type ℓ} (key : A → ℕ) where
  pub not-mem-filter :
      (p : A → Bool) (n : ℕ) (xs : List A)
      → is_mem n (map key xs) ≡ false
      → is_mem n (map key (filter p xs)) ≡ false
  not-mem-filter p n [] h = refl
  not-mem-filter p n (x ∷ xs) h = ground (arith, not-mem-filter p n xs)

  pub IsNodup-filter :
      (p : A → Bool) (xs : List A) → IsNodup (map key xs) → IsNodup (map key (filter p xs))
  IsNodup-filter p [] h = tt
  IsNodup-filter p (x ∷ xs) h = elim (Bool-cases (p x)) [
    | inl e ↦ rw e (not-mem-filter p (key x) xs h.0, IsNodup-filter p xs h.1)
    | inr e ↦ rw e (IsNodup-filter p xs h.1)
  ]

  pub All-ne_of_not_mem :
      (n : ℕ) (xs : List A) → is_mem n (map key xs) ≡ false → All (λ x. (key x == n) ≡ false) xs
  All-ne_of_not_mem n [] h = tt
  All-ne_of_not_mem n (x ∷ xs) h = (ground arith, All-ne_of_not_mem n xs (ground arith))

  -- Among rows with distinct keys, the keys of those that pass a test pick out just those.
  pub is_mem-filter :
      (p : A → Bool) (xs : List A)
      → IsNodup (map key xs)
      → All (λ x. is_mem (key x) (map key (filter p xs)) ≡ p x) xs
  is_mem-filter p [] h = tt
  is_mem-filter p (x ∷ xs) h = (
    ground (arith, ==_refl (key x), not-mem-filter p (key x) xs h.0),
    All-zip (λ y. (key y == key x) ≡ false) (λ y. is_mem (key y) (map key (filter p xs)) ≡ p y)
        (λ y. is_mem (key y) (map key (filter p (x ∷ xs))) ≡ p y) xs (λ y ne ih. ground arith)
        (All-ne_of_not_mem (key x) xs h.0) (is_mem-filter p xs h.1),
  )
