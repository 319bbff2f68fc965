-- ===== src/Prelude/Results.antt =====
-- A Go function's `(value, error)` as a value or an error.
use mathlib.Core.Path.{◌≡◌, refl, ap}
use native.Mathlib.Omega.{arith}
use mathlib.Core.Logic.{◌⊎◌, ◌↔◌, inl, inr}
use mathlib.Core.Bool.{Bool, true, false}

pub data Result {ℓ κ} (E : Type ℓ) (A : Type κ) : Type (ℓ ⊔ κ) where
  ok : A → Result E A
  err : E → Result E A

infixl 5 ◌>>=◌ ◌>>◌
abbrev pub ◌>>=◌ {ℓ κ μ} :
    {E : Type ℓ} {A : Type κ} {B : Type μ} → Result E A → (A → Result E B) → Result E B
ok a >>= f = f a
err e >>= f = err e

abbrev pub ◌>>◌ {ℓ κ} : {E : Type ℓ} {B : Type κ} → Result E (Unit {0}) → Result E B → Result E B
m >> k = m >>= λ _. k

-- An error of a call, wrapped by its caller.
abbrev pub named_error {ℓ κ μ} :
    {F : Type ℓ} {E : Type κ} {A : Type μ} → (F → E) → Result F A → Result E A
named_error name (ok a) = ok a
named_error name (err e) = err (name e)

-- `if cond { return error }`
abbrev pub refuse_if {ℓ} : {E : Type ℓ} → Bool → E → Result E (Unit {0})
refuse_if true e = err e
refuse_if false e = ok tt

pub Result-cases {ℓ κ} :
    {E : Type ℓ} {A : Type κ} (r : Result E A) → ((a : A) × (r ≡ ok a)) ⊎ ((e : E) × (r ≡ err e))
Result-cases (ok a) = inl (a, refl)
Result-cases (err e) = inr (e, refl)

-- Inversion of a successful sequence.
pub bind-eq-ok {ℓ κ μ} :
    {E : Type ℓ} {A : Type κ} {B : Type μ} (m : Result E A) (f : A → Result E B) {b : B}
    → (m >>= f) ≡ ok b
    → (a : A) × (m ≡ ok a) × (f a ≡ ok b)
bind-eq-ok (ok a) f h = (a, refl, h)
bind-eq-ok (err e) f h = cc

pub seq-eq-ok {ℓ κ} :
    {E : Type ℓ} {B : Type κ} (m : Result E (Unit {0})) (k : Result E B) {b : B}
    → (m >> k) ≡ ok b
    → (m ≡ ok tt) × (k ≡ ok b)
seq-eq-ok (ok tt) k h = (refl, h)
seq-eq-ok (err e) k h = cc

-- A step of a run that carries a state: the rest runs where it returned a value.
abbrev pub chain {ℓ κ μ ν} :
    {W : Type ℓ} {E : Type κ} {A : Type μ} {B : Type ν}
    → W × Result E A
    → (A → W → W × Result E B)
    → W × Result E B
chain (w, err e) f = (w, err e)
chain (w, ok a) f = f a w

pub pair_eq {ℓ κ} :
    {W : Type ℓ} {A : Type κ} {w v : W} {a b : A}
    → ◌≡◌ {A = W × A} (w, a) (v, b)
    → (w ≡ v) × (a ≡ b)
pair_eq h = (ap (λ p. p.0) h, ap (λ p. p.1) h)

pub ok_inj {ℓ κ} : {E : Type ℓ} {A : Type κ} {a b : A} → ◌≡◌ {A = Result E A} (ok a) (ok b) → a ≡ b
ok_inj h = cc

pub err_not_ok {ℓ κ} :
    {E : Type ℓ} {A : Type κ} {e : E} {a : A} → ◌≡◌ {A = Result E A} (err e) (ok a) → ⊥
err_not_ok h = ground arith

-- Inversion of a run that succeeded.
pub chain-eq-ok {ℓ κ μ ν} :
    {W : Type ℓ} {E : Type κ} {A : Type μ} {B : Type ν} (r : W × Result E A)
    (f : A → W → W × Result E B) (v : W) (b : B)
    → chain r f ≡ (v, ok b)
    → (a : A) × (u : W) × (r ≡ (u, ok a)) × (f a u ≡ (v, ok b))
chain-eq-ok (w, ok a) f v b h = (a, w, refl, h)
chain-eq-ok (w, err e) f v b h = absurd (err_not_ok (pair_eq h).1)

pub named_error_iff {ℓ κ μ} :
    {F : Type ℓ} {E : Type κ} {A : Type μ} (name : F → E) (r : Result F A) (a : A)
    → (named_error name r ≡ ok a) ↔ (r ≡ ok a)
named_error_iff name (ok b) a = (λ h. ap ok (ok_inj h), λ h. ap ok (ok_inj h))
named_error_iff name (err e) a = (λ h. absurd (err_not_ok h), λ h. absurd (err_not_ok h))
