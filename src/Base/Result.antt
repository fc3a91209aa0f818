-- ===== src/Base/Result.antt =====
-- A Go function that returns a value and an error, where the value is not used beside an error.
use mathlib.Core.Path.{◌≡◌, refl}

pub data Result {ℓ κ} (E : Type κ) (A : Type ℓ) : Type (ℓ ⊔ κ) where
  ok : A → Result E A
  err : E → Result E A

infixl 5 ◌>>=◌
abbrev pub ◌>>=◌ {ℓ κ μ} :
    {E : Type μ} {A : Type ℓ} {B : Type κ} → Result E A → (A → Result E B) → Result E B
ok a >>= f = f a
err e >>= f = err e

pub bind-eq-ok {ℓ κ μ} :
    {E : Type μ} {A : Type ℓ} {B : Type κ} (m : Result E A) (f : A → Result E B) {b : B}
    → (m >>= f) ≡ ok b
    → (a : A) × (m ≡ ok a) × (f a ≡ ok b)
bind-eq-ok (ok a) f h = (a, refl, h)
bind-eq-ok (err e) f h = cc

module _ {ℓ κ μ} {E : Type μ} {A : Type ℓ} {B : Type κ} where
  pub bind_assoc {ν} :
      {C : Type ν} (r : Result E A) (f : A → Result E B) (g : B → Result E C)
      → ((r >>= f) >>= g) ≡ (r >>= λ a. f a >>= g)
  bind_assoc (ok a) f g = refl
  bind_assoc (err e) f g = refl

  pub bind_congr :
      (r : Result E A) {f g : A → Result E B} → ((a : A) → f a ≡ g a) → (r >>= f) ≡ (r >>= g)
  bind_congr r p = λ i. r >>= λ a. p a i

pub bind-ok {ℓ μ} : {E : Type μ} {A : Type ℓ} (r : Result E A) → (r >>= ok) ≡ r
bind-ok (ok a) = refl
bind-ok (err e) = refl
