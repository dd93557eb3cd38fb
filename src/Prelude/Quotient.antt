-- ===== src/Prelude/Quotient.antt =====
-- Division that rounds up: `math.ceil(a / b)`, and the ticks of a quotient of two amounts.
use Prim.Native.Nat.{ℕ, ◌+◌, ◌-◌, ◌*◌, ◌/◌, ◌≤◌, ◌<◌}
use mathlib.Core.Path.{◌≡◌}
use native.Mathlib.Omega.{arith}

unfoldable pub ceil_div : ℕ → ℕ → ℕ
ceil_div a b = (a + (b - 1)) / b

-- The quotient covers the dividend.
pub ceil_div_covers : (a b : ℕ) → 0 < b → a ≤ ceil_div a b * b
unfolding ceil_div
ceil_div_covers a b h = grind arith

-- It is the least number that does.
pub ceil_div-least : (a b k : ℕ) → 0 < b → a ≤ k * b → ceil_div a b ≤ k
unfolding ceil_div
ceil_div-least a b k h le = grind arith

pub lt-ceil_div : (a b k : ℕ) → 0 < b → k < ceil_div a b → k * b < a
unfolding ceil_div
lt-ceil_div a b k h lt = grind arith

pub ceil_div_pos : (a b : ℕ) → 0 < b → 0 < a → 0 < ceil_div a b
unfolding ceil_div
ceil_div_pos a b h k = grind arith

-- `math.floor(a / b)` is the number of times that `b` fits into `a`.
pub floor_bounds : (a b : ℕ) → 0 < b → (a / b * b ≤ a) × (a < (a / b + 1) * b)
floor_bounds a b h = (grind arith, grind arith)

pub floor_le : (a b c : ℕ) → 0 < b → a ≤ c * b → a / b ≤ c
floor_le a b c h le = grind arith

pub le_of_mul_le : (a c b : ℕ) → 0 < b → a * b ≤ c * b → a ≤ c
le_of_mul_le a c b h le = grind arith

pub lt_of_mul_lt : (a c b : ℕ) → a * b < c * b → a < c
lt_of_mul_lt a c b h = grind arith

-- Two amounts that make up `c` whole units have floors that add up to `c`, or to one less.
pub floor_split :
    (a b c d : ℕ) → 0 < b → a + d ≡ c * b → (a / b + d / b ≤ c) × (c < a / b + d / b + 1 + 1)
floor_split a b c d h e =
    let (low, high) = floor_bounds a b h in
    let (low', high') = floor_bounds d b h in
    (
      le_of_mul_le (a / b + d / b) c b h (omega arith),
      lt_of_mul_lt c (a / b + d / b + 1 + 1) b (omega arith),
    )

pub mul_le_mul : (a c b : ℕ) → a ≤ c → a * b ≤ c * b
mul_le_mul a c b h = grind arith

pub mul_pos : (a b : ℕ) → 0 < a → 0 < b → 0 < a * b
mul_pos a b h k = grind arith
