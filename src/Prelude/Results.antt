-- ===== src/Prelude/Results.antt =====
-- Rust's `Result`: `?` is a bind, an early `return Err(…)` under a test is `reject_if`, and
-- `Option::ok_or` is `ok_or`.
use mathlib.Core.Path.{◌≡◌, refl, subst}
use mathlib.Core.Bool.{Bool, true, false}
use mathlib.Core.Option.{Option, none, some}

pub data Result {ℓ κ} (E : Type κ) (A : Type ℓ) : Type (ℓ ⊔ κ) where
  ok : A → Result E A
  err : E → Result E A

module _ {μ} {E : Type μ} where
  -- `if refused { return Err(reason); }`
  abbrev pub reject_if : Bool → E → Result E (Unit {0})
  reject_if false reason = ok tt
  reject_if true reason = err reason

  abbrev pub ok_or {ℓ} : {A : Type ℓ} → Option A → E → Result E A
  ok_or (some a) reason = ok a
  ok_or none reason = err reason

  pub ok_of-ok_or {ℓ} :
      {A : Type ℓ} (o : Option A) (reason : E) {a : A} → ok_or o reason ≡ ok a → o ≡ some a
  ok_of-ok_or (some a) reason h = cc
  ok_of-ok_or none reason h = cc

module _ {ℓ κ μ} {E : Type μ} {A : Type ℓ} {B : Type κ} where
  infixl 8 ◌>>=◌ ◌>>◌
  abbrev pub ◌>>=◌ : Result E A → (A → Result E B) → Result E B
  err reason >>= next = err reason
  ok value >>= next = next value

  abbrev pub ◌>>◌ : Result E A → Result E B → Result E B
  first >> second = first >>= λ value. second

  -- Both steps of a successful chain succeeded.
  pub ok_of-bind :
      (r : Result E A) (next : A → Result E B) {w : B}
      → (r >>= next) ≡ ok w
      → record { value : A; first : r ≡ ok value; then : next value ≡ ok w }
  ok_of-bind (err reason) next h = cc
  ok_of-bind (ok value) next h = record { value = value; first = refl; then = h }

-- What holds of every successful result.
abbrev pub Ensures {ℓ κ μ} : {E : Type μ} {A : Type ℓ} → (A → Type κ) → Result E A → Type κ
Ensures P (ok value) = P value
Ensures P (err reason) = Unit

module _ {ℓ κ μ} {E : Type μ} {A : Type ℓ} {B : Type κ} where
  pub bind-Ensures {ν} :
      (P : B → Type ν) (r : Result E A) (next : A → Result E B)
      → ((a : A) → r ≡ ok a → Ensures P (next a))
      → Ensures P (r >>= next)
  bind-Ensures P (err reason) next h = tt
  bind-Ensures P (ok value) next h = h value refl

pub Ensures-ok {ℓ κ μ} :
    {E : Type μ} {A : Type ℓ} (P : A → Type κ) (r : Result E A) (a : A)
    → Ensures P r
    → r ≡ ok a
    → P a
Ensures-ok P (ok value) a h e = subst (λ (r : Result _ _). Ensures P r) e h
Ensures-ok P (err reason) a h e = cc

pub Ensures-map {ℓ κ ν μ} :
    {E : Type μ} {A : Type ℓ} {P : A → Type κ} {Q : A → Type ν} (r : Result E A)
    → ((a : A) → P a → Q a)
    → Ensures P r
    → Ensures Q r
Ensures-map (ok value) f h = f value h
Ensures-map (err reason) f h = tt
