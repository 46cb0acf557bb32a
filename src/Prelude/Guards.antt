-- ===== src/Prelude/Guards.antt =====
-- Chains of guards: what is known of a conditional whose first branch is, or is not, the wanted one.
use mathlib.Core.Path.{◌≡◌, refl}
use mathlib.Core.Bool.{Bool, true, false, not}
use mathlib.Core.Logic.{◌↔◌}
use mathlib.Core.Option.{Option, none, some}
use scopepilot.Prelude.Tests.{if◌then◌else◌}

module _ {A : Type 0} (G : A → Type 0) where
  pub branch : (b : Bool) (x y : A) → G x → G y → G (if b then x else y)
  branch true x y hx hy = hx
  branch false x y hx hy = hy

  pub branch_on : (b : Bool) (x y : A) → (b ≡ true → G x) → G y → G (if b then x else y)
  branch_on true x y hx hy = hx refl
  branch_on false x y hx hy = hy

  -- The first branch is excluded.
  pub passed : (b : Bool) (x rest : A) → G (if b then x else rest) → ¬ G x → (b ≡ false) × G rest
  passed true x rest g never = absurd (never g)
  passed false x rest g never = (refl, g)

  pub passed_not :
      (b : Bool) (x rest : A) → G (if not b then x else rest) → ¬ G x → (b ≡ true) × G rest
  passed_not true x rest g never = (refl, g)
  passed_not false x rest g never = absurd (never g)

  pub passing : (b : Bool) (x rest : A) → b ≡ false → G rest → G (if b then x else rest)
  passing true x rest h g = cc
  passing false x rest h g = g

  pub passing_not : (b : Bool) (x rest : A) → b ≡ true → G rest → G (if not b then x else rest)
  passing_not true x rest h g = g
  passing_not false x rest h g = cc

-- A chain of checks finds no error exactly when each of them finds none.
pub refuse_iff {ℓ} :
    {E : Type ℓ} (b : Bool) (e : E) (rest : Option E)
    → ((if b then some e else rest) ≡ none) ↔ ((b ≡ false) × (rest ≡ none))
refuse_iff true e rest = ((λ h. cc), (λ h. cc))
refuse_iff false e rest = ((λ h. (refl, h)), (λ h. h.1))

pub refuse_not_iff {ℓ} :
    {E : Type ℓ} (b : Bool) (e : E) (rest : Option E)
    → ((if not b then some e else rest) ≡ none) ↔ ((b ≡ true) × (rest ≡ none))
refuse_not_iff true e rest = ((λ h. (refl, h)), (λ h. h.1))
refuse_not_iff false e rest = ((λ h. cc), (λ h. cc))
