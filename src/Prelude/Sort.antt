-- ===== src/Prelude/Sort.antt =====
-- Sorting by a test that compares two elements; elements that compare equal keep their order.
use mathlib.Core.Path.{◌≡◌, refl}
use mathlib.Core.Logic.{inl, inr}
use mathlib.Core.Bool.{Bool, true, false}
use mathlib.Core.List.{List, [], ◌∷◌}
use native.Mathlib.Omega.{arith}
use truthpage.Prelude.Tests.{if◌then◌else◌, Bool-cases}
use truthpage.Prelude.Lists.{All, count}

module _ {ℓ} {A : Type ℓ} (before : A → A → Bool) where
  pub put : A → List A → List A
  put a [] = a ∷ []
  put a (x ∷ xs) = let rest = put a xs in if before a x then a ∷ x ∷ xs else x ∷ rest

  unfoldable pub sort_by : List A → List A
  unfolding put
  sort_by [] = []
  sort_by (x ∷ xs) = put x (sort_by xs)

  abbrev pub IsOrdered : List A → Type 0
  IsOrdered [] = Unit
  IsOrdered (x ∷ xs) = All (λ y. before x y ≡ true) xs × IsOrdered xs

  count-put : (p : A → Bool) (a : A) (xs : List A) → count p (put a xs) ≡ count p (a ∷ xs)
  unfolding put
  count-put p a [] = refl
  count-put p a (x ∷ xs) = ground (arith, count-put p a xs)

  pub count-sort_by : (p : A → Bool) (xs : List A) → count p (sort_by xs) ≡ count p xs
  unfolding sort_by
  count-sort_by p [] = refl
  count-sort_by p (x ∷ xs) = omega (arith, count-put p x (sort_by xs), count-sort_by p xs)

  All-put_any {κ} : (P : A → Type κ) (a : A) (xs : List A) → P a → All P xs → All P (put a xs)
  unfolding put
  All-put_any P a [] first rest = (first, tt)
  All-put_any P a (x ∷ xs) first rest = elim (Bool-cases (before a x)) [
    | inl e ↦ rw e (first, rest)
    | inr e ↦ rw e (rest.0, All-put_any P a xs first rest.1)
  ]

  pub All-sort_by {κ} : (P : A → Type κ) (xs : List A) → All P xs → All P (sort_by xs)
  unfolding sort_by
  All-sort_by P [] all = tt
  All-sort_by P (x ∷ xs) all = All-put_any P x (sort_by xs) all.0 (All-sort_by P xs all.1)

  All-put :
      (c a : A) (xs : List A)
      → before c a ≡ true
      → All (λ y. before c y ≡ true) xs
      → All (λ y. before c y ≡ true) (put a xs)
  unfolding put
  All-put c a [] first rest = (first, tt)
  All-put c a (x ∷ xs) first rest = elim (Bool-cases (before a x)) [
    | inl e ↦ rw e (first, rest)
    | inr e ↦ rw e (rest.0, All-put c a xs first rest.1)
  ]

  module _ (total : (a b : A) → before a b ≡ false → before b a ≡ true)
      (chain : (a b c : A) → before a b ≡ true → before b c ≡ true → before a c ≡ true) where
    All-chain :
        (a b : A) (xs : List A)
        → before a b ≡ true
        → All (λ y. before b y ≡ true) xs
        → All (λ y. before a y ≡ true) xs
    All-chain a b [] h rest = tt
    All-chain a b (x ∷ xs) h rest = (chain a b x h rest.0, All-chain a b xs h rest.1)

    put-IsOrdered : (a : A) (xs : List A) → IsOrdered xs → IsOrdered (put a xs)
    unfolding put
    put-IsOrdered a [] o = (tt, tt)
    put-IsOrdered a (x ∷ xs) o = elim (Bool-cases (before a x)) [
      | inl e ↦ rw e ((e, All-chain a x xs e o.0), o)
      | inr e ↦ rw e (All-put x a xs (total a x e) o.0, put-IsOrdered a xs o.1)
    ]

    pub sort_by-IsOrdered : (xs : List A) → IsOrdered (sort_by xs)
    unfolding sort_by
    sort_by-IsOrdered [] = tt
    sort_by-IsOrdered (x ∷ xs) = put-IsOrdered x (sort_by xs) (sort_by-IsOrdered xs)
