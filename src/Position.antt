-- ===== src/Position.antt =====
-- python-simulator/generators/position_calc.py: class PositionCalculator over the Skyfield library,
-- which is a parameter.
pub mod Skyfield
pub mod Calculator
pub mod Laws
pub mod Range
