-- ===== src/Prelude/Members.antt =====
-- What a test that is true of some element of a list shows.
use mathlib.Core.Bool.{Bool, true}
use mathlib.Core.Logic.{inl, inr}
use mathlib.Core.List.{List, [], ◌∷◌, Memᴰ}
use mathlib.Core.Path.{◌≡◌, refl}
use native.Mathlib.Omega.{arith}
use truthpage.Prelude.Tests.{Bool-cases}
use truthpage.Prelude.Lists.{any, All, filter}

pub any-Mem {ℓ} :
    {A : Type ℓ} (p : A → Bool) (xs : List A) → any p xs ≡ true → (x : A) × Memᴰ x xs × (p x ≡ true)
any-Mem p [] passed = absurd (ground arith)
any-Mem p (x ∷ xs) passed = elim (Bool-cases (p x)) [
  | inl here ↦ (x, Memᴰ.head refl, here)
  | inr not_here ↦
      let (y, there, holds) = any-Mem p xs (ground arith) in (y, Memᴰ.tail there, holds)
]

pub All-filter {ℓ κ} :
    {A : Type ℓ} (P : A → Type κ) (p : A → Bool) (xs : List A)
    → ((x : A) → p x ≡ true → P x)
    → All P (filter p xs)
All-filter P p [] holds = tt
All-filter P p (x ∷ xs) holds = elim (Bool-cases (p x)) [
  | inl passed ↦ rw passed (holds x passed, All-filter P p xs holds)
  | inr failed ↦ rw failed (All-filter P p xs holds)
]
