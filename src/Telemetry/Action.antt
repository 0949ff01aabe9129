-- ===== src/Telemetry/Action.antt =====
-- Actions that read and write a state and may raise.
use space_project.Base.{Option, none, some}

abbrev pub Action {ℓ κ} : Type ℓ → Type κ → Type (ℓ ⊔ κ)
Action W A = W → Option A × W

module _ {ℓ κ} {W : Type ℓ} {A : Type κ} where
  abbrev pub pure : A → Action W A
  pure a w = (some a, w)

  abbrev pub gets : (W → A) → Action W A
  gets f w = (some (f w), w)

abbrev pub modify {ℓ} : {W : Type ℓ} → (W → W) → Action W (Unit {0})
modify f w = (some tt, f w)

module _ {ℓ κ ι} {W : Type ℓ} {A : Type κ} {B : Type ι} where
  abbrev pub continue : Option A → (A → Action W B) → Action W B
  continue (some a) f w = f a w
  continue none f w = (none, w)

  infixl 10 ◌>>=◌ ◌>>◌
  abbrev pub ◌>>=◌ : Action W A → (A → Action W B) → Action W B
  ◌>>=◌ m f w = let (r, w') = m w in continue r f w'

  abbrev pub ◌>>◌ : Action W A → Action W B → Action W B
  m >> n = m >>= λ _. n
