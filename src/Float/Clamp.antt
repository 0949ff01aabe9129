-- ===== src/Float/Clamp.antt =====
-- The bounds of `max(low, min(high, x))` and of its rounding.
use space_project.Base.{ℕ, arith}
use space_project.Base.Int.{ℤ, ◌≤ℤ◌}
use space_project.Float.{Between, Float, ◌≼◌, IsFloat, py_max, py_min, clamp}

module _ {ℓ} {F : Type ℓ} ⦃f : Float F⦄ (laws : IsFloat F) where
  open laws use {le_of_lt, le_trans, of_int_mono, round_mono, round-of_int}

  pub le-py_max : (a : ℤ) (x : F) → f.of_int a ≼ py_max (f.of_int a) x
  unfolding py_max
  le-py_max a x = ground (arith, le_of_lt (f.of_int a) x, of_int_mono a a)

  py_max-le : (a b : ℤ) (x : F) → a ≤ℤ b → x ≼ f.of_int b → py_max (f.of_int a) x ≼ f.of_int b
  unfolding py_max
  py_max-le a b x h k = ground (arith, of_int_mono a b)

  py_min-le : (b : ℤ) (x : F) → py_min (f.of_int b) x ≼ f.of_int b
  unfolding py_min
  py_min-le b x = ground (arith, le_of_lt x (f.of_int b), of_int_mono b b)

  pub clamp-Between : (low high : ℤ) (x : F) → low ≤ℤ high → Between low high (clamp low high x)
  unfolding clamp
  clamp-Between low high x h = (
    le-py_max low (py_min (f.of_int high) x),
    py_max-le low high (py_min (f.of_int high) x) h (py_min-le high x),
  )

  pub round-ge : (a : ℤ) (x : F) (digits : ℕ) → f.of_int a ≼ x → f.of_int a ≼ f.round x digits
  round-ge a x digits h = rw round-of_int at (round_mono (f.of_int a) x digits h)

  round-le : (a : ℤ) (x : F) (digits : ℕ) → x ≼ f.of_int a → f.round x digits ≼ f.of_int a
  round-le a x digits h = rw round-of_int at (round_mono x (f.of_int a) digits h)

  pub round-Between :
      (low high : ℤ) (x : F) (digits : ℕ) → Between low high x → Between low high (f.round x digits)
  round-Between low high x digits h = (round-ge low x digits h.0, round-le high x digits h.1)
