-- ===== src/Prelude/Results.antt =====
-- `std::result::Result`, with `?` as the bind of a `do` block, and `Option::ok_or`.
use mathlib.Core.Path.{◌≡◌, refl}
use mathlib.Core.Logic.{◌⊎◌, inl, inr}
use mathlib.Core.Bool.{Bool, true, false}
use mathlib.Core.Option.{Option, none, some}

pub data Result {ℓ κ} (A : Type ℓ) (E : Type κ) : Type (ℓ ⊔ κ) where
  ok : A → Result A E
  err : E → Result A E

module _ {ℓ κ μ} {A : Type ℓ} {B : Type κ} {E : Type μ} where
  infixl 5 ◌>>=◌
  abbrev pub ◌>>=◌ : Result A E → (A → Result B E) → Result B E
  ok a >>= f = f a
  err e >>= f = err e

  -- A chain that succeeds has gone through its first step.
  pub ok-of_bind :
      {step : Result A E} {later : A → Result B E} {result : B}
      → step >>= later ≡ ok result
      → (given : A) × (ok given ≡ step) × (later given ≡ ok result)
  ok-of_bind {step = ok given} h = (given, refl, h)
  ok-of_bind {step = err refusal} h = cc

module _ {μ} {E : Type μ} where
  -- `if test { return Err(e); }`
  abbrev pub refuse_if : Bool → E → Result (Unit {0}) E
  refuse_if true e = err e
  refuse_if false e = ok tt

  infixl 5 ◌>>◌
  abbrev pub ◌>>◌ {κ} : {B : Type κ} → Result (Unit {0}) E → Result B E → Result B E
  ok u >> k = k
  err e >> k = err e

module _ {ℓ μ} {A : Type ℓ} {E : Type μ} where
  abbrev pub ok_or : Option A → E → Result A E
  ok_or none e = err e
  ok_or (some a) e = ok a

module _ {ℓ κ μ} {A : Type ℓ} {E : Type κ} {F : Type μ} where
  abbrev pub map_err : (E → F) → Result A E → Result A F
  map_err f (ok a) = ok a
  map_err f (err e) = err (f e)

module _ {ℓ κ} {A : Type ℓ} {E : Type κ} where
  pub ok_injective : {a b : A} → ◌≡◌ {A = Result A E} (ok a) (ok b) → a ≡ b
  ok_injective e = cc e

  pub Result-cases : (r : Result A E) → ((a : A) × (r ≡ ok a)) ⊎ ((e : E) × (r ≡ err e))
  Result-cases (ok a) = inl (a, refl)
  Result-cases (err e) = inr (e, refl)
