-- ===== src/Prelude/Runs.antt =====
-- Sequences of instants: the times at which calls are made.
use rate_limit_patterns.Prelude.Int.{ℤ, ◌≤ℤ◌}
use mathlib.Core.List.{List, [], ◌∷◌}
use native.Mathlib.Omega.{arith}

-- No instant of the list lies before the one ahead of it, nor before `start`.
abbrev pub IsOrdered : ℤ → List ℤ → Type 0
IsOrdered start [] = Unit
IsOrdered start (t ∷ ts) = (start ≤ℤ t) × IsOrdered t ts

abbrev pub last_or : ℤ → List ℤ → ℤ
last_or start [] = start
last_or start (t ∷ ts) = last_or t ts

pub IsOrdered-last_or : (start : ℤ) (ts : List ℤ) → IsOrdered start ts → start ≤ℤ last_or start ts
IsOrdered-last_or start [] h = omega arith
IsOrdered-last_or start (t ∷ ts) h = omega (arith, IsOrdered-last_or t ts h.1)
