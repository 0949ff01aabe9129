-- ===== src/Telemetry/Random.antt =====
-- The random number generators of Python and of numpy, whose states are `S`: what the code calls,
-- and what is documented of it.
use space_project.Base.{ℕ, ◌≢◌, Option, none}
use space_project.Base.Int.{pos}
use space_project.Float.{Float, ◌≼◌}
use space_project.Float.Cents.{cents_float}

pub record Rng (F S : Type 0) : Type 0 where
  -- `random.random()`
  pub random : S → F × S
  -- `random.uniform(a, b)`
  pub uniform : F → F → S → F × S
  -- `np.random.uniform(low, high)`
  pub np_uniform : F → F → S → F × S
  -- `np.random.normal(loc, scale)`, which may raise.
  pub np_normal : F → F → S → Option F × S
  -- The index of the element that `random.choice` takes of a list of that length.
  pub choice : ℕ → S → ℕ × S

pub record IsRng {F S : Type 0} ⦃f : Float F⦄ (r : Rng F S) : Type 0 where
  pub uniform_bounds :
      (a b : F) (s : S) → a ≼ b → (a ≼ (r.uniform a b s).0) × ((r.uniform a b s).0 ≼ b)
  pub np_uniform_bounds :
      (a b : F) (s : S) → a ≼ b → (a ≼ (r.np_uniform a b s).0) × ((r.np_uniform a b s).0 ≼ b)
  pub np_normal_some :
      (mean scale : F) (s : S) → f.of_int (pos 0) ≼ scale → (r.np_normal mean scale s).0 ≢ none
