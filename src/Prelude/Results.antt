-- ===== src/Prelude/Results.antt =====
-- A call that may raise: its value, or the exception.
use mathlib.Core.Path.{◌≡◌, refl}
use mathlib.Core.Bool.{Bool, true, false}

pub data Result {ℓ κ} (E : Type ℓ) (A : Type κ) : Type (ℓ ⊔ κ) where
  ok : A → Result E A
  err : E → Result E A

-- The value, or `old` where the call raised: an object that was not committed stays as it was.
abbrev pub or_unchanged {ℓ κ} : {E : Type ℓ} {A : Type κ} → A → Result E A → A
or_unchanged old (ok value) = value
or_unchanged old (err e) = old

abbrev pub map_ok {ℓ κ μ} :
    {E : Type ℓ} {A : Type κ} {B : Type μ} → (A → B) → Result E A → Result E B
map_ok change (ok value) = ok (change value)
map_ok change (err raised) = err raised

-- `if b: raise e`
abbrev pub raise_if {ℓ} : {E : Type ℓ} → Bool → E → Result E (Unit {0})
raise_if false exception = ok tt
raise_if true exception = err exception

-- The next statement runs on the value; an exception skips it.
infixl 5 ◌>>=◌ ◌>>◌
abbrev pub ◌>>=◌ {ℓ κ μ} :
    {E : Type ℓ} {A : Type κ} {B : Type μ} → Result E A → (A → Result E B) → Result E B
err raised >>= rest = err raised
ok value >>= rest = rest value

abbrev pub ◌>>◌ {ℓ κ} : {E : Type ℓ} {B : Type κ} → Result E (Unit {0}) → Result E B → Result E B
err raised >> rest = err raised
ok unit >> rest = rest

-- Inversion of a chain that did not raise.
pub >>=-eq-ok {ℓ κ μ} :
    {E : Type ℓ} {A : Type κ} {B : Type μ} (first : Result E A) (rest : A → Result E B) {b : B}
    → (first >>= rest) ≡ ok b
    → (value : A) × (first ≡ ok value) × (rest value ≡ ok b)
>>=-eq-ok (err raised) rest returned = cc
>>=-eq-ok (ok value) rest returned = (value, refl, returned)

pub bind_assoc {ℓ κ μ ν} :
    {E : Type ℓ} {A : Type κ} {B : Type μ} {C : Type ν} (first : Result E A)
    (second : A → Result E B) (third : B → Result E C)
    → (first >>= second >>= third) ≡ (first >>= λ value. second value >>= third)
bind_assoc (err raised) second third = refl
bind_assoc (ok value) second third = refl

pub raise_if-ok {ℓ κ} :
    {E : Type ℓ} {A : Type κ} {a : A} (b : Bool) (e : E) (rest : Result E A)
    → (raise_if b e >> rest) ≡ ok a
    → (b ≡ false) × (rest ≡ ok a)
raise_if-ok true e rest h = cc h
raise_if-ok false e rest h = (refl, h)
