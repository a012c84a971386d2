-- ===== src/Prelude/Loops.antt =====
-- Loops on fuel: `body` is one round, which ends the loop or leaves a state for the next.
use Prim.Native.Nat.{ℕ, zero, suc, ◌<◌}
use mathlib.Core.Path.{◌≡◌, refl}
use mathlib.Core.Logic.{◌⊎◌, inl, inr}
use mathlib.Core.Option.{Option, none, some}
use native.Mathlib.Omega.{arith}

pub data Round {ℓ κ} (S : Type ℓ) (R : Type κ) : Type (ℓ ⊔ κ) where
  stop : R → Round S R
  next : S → Round S R

Round-cases {ℓ κ} :
    {S : Type ℓ} {R : Type κ} (o : Round S R) → ((r : R) × (o ≡ stop r)) ⊎ ((s : S) × (o ≡ next s))
Round-cases (stop r) = inl (r, refl)
Round-cases (next s) = inr (s, refl)

module _ {ℓ κ} {S : Type ℓ} {R : Type κ} (body : S → Round S R) where
  -- `none` where the fuel runs out.
  unfoldable pub loop : ℕ → S → Option R
  loop zero s = none
  loop (suc fuel) s = elim (body s) [ stop r ↦ some r | next t ↦ loop fuel t ]

  -- What a round from `s` gives: where it ends, `Q` of the result; where it goes on, `P` of a state
  -- of smaller measure.
  module _ {μ} (P : S → Type μ) (Q : R → Type μ) (measure : S → ℕ) where
    abbrev pub Progress : S → Round S R → Type μ
    Progress s (stop r) = Q r
    Progress s (next t) = P t × (measure t < measure s)

    -- With fuel above the measure a loop of such rounds ends, in a result of `Q`.
    pub loop_total :
        ((s : S) → P s → Progress s (body s))
        → (fuel : ℕ) (s : S) → measure s < fuel
        → P s
        → (r : R) × (loop fuel s ≡ some r) × Q r
    unfolding loop
    loop_total step zero s m p = absurd (omega (arith, m))
    loop_total step (suc fuel) s m p = elim (Round-cases (body s)) [
      | inl (r, e) ↦ (r, rw (loop, e), rw e at (step s p))
      | inr (t, e) ↦
          let (kept, less) = (rw e at (step s p)) in
          let (r, h, q) = loop_total step fuel t (omega (arith, m, less)) kept in
          (r, rw (loop, e) h, q)
    ]
