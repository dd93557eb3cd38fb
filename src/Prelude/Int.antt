-- ===== src/Prelude/Int.antt =====
-- Signed integers over the native numbers: the instants of the clocks (in ticks, which may lie
-- before the clock's origin) and the Python ints that may be negative.
use Prim.Native.Nat.{ℕ, suc, ◌+◌, ◌-◌, ◌≤◌, ◌<◌}
use mathlib.Core.Path.{◌≡◌}
use mathlib.Core.Bool.{Bool}
use native.Mathlib.Omega.{arith}
use rate_limit_patterns.Prelude.Tests.{ltb, leb, if◌then◌else◌}

-- `negsuc n` is -(n + 1).
pub data ℤ : Type 0 where
  pos : ℕ → ℤ
  negsuc : ℕ → ℤ

abbrev pub pos_part : ℤ → ℕ
pos_part (pos n) = n
pos_part (negsuc n) = 0

abbrev pub neg_part : ℤ → ℕ
neg_part (pos n) = 0
neg_part (negsuc n) = suc n

-- a - b, as an integer.
abbrev pub sub_ℕ : ℕ → ℕ → ℤ
sub_ℕ a b = if leb b a then pos (a - b) else negsuc (b - a - 1)

infixl 65 ◌+ℤ◌ ◌-ℤ◌
infix 50 ◌≤ℤ◌ ◌<ℤ◌
unfoldable pub ◌+ℤ◌ : ℤ → ℤ → ℤ
a +ℤ b = sub_ℕ (pos_part a + pos_part b) (neg_part a + neg_part b)

unfoldable pub ◌-ℤ◌ : ℤ → ℤ → ℤ
a -ℤ b = sub_ℕ (pos_part a + neg_part b) (neg_part a + pos_part b)

abbrev pub ◌≤ℤ◌ : ℤ → ℤ → Type 0
a ≤ℤ b = pos_part a + neg_part b ≤ pos_part b + neg_part a

abbrev pub ◌<ℤ◌ : ℤ → ℤ → Type 0
a <ℤ b = pos_part a + neg_part b < pos_part b + neg_part a

abbrev pub ltb_ℤ : ℤ → ℤ → Bool
ltb_ℤ a b = ltb (pos_part a + neg_part b) (pos_part b + neg_part a)

abbrev pub leb_ℤ : ℤ → ℤ → Bool
leb_ℤ a b = leb (pos_part a + neg_part b) (pos_part b + neg_part a)

pub +ℤ_parts :
    (a b : ℤ)
    → pos_part (a +ℤ b) + neg_part a + neg_part b ≡ neg_part (a +ℤ b) + pos_part a + pos_part b
unfolding ◌+ℤ◌
+ℤ_parts a b = ground arith

pub -ℤ_parts :
    (a b : ℤ)
    → pos_part (a -ℤ b) + neg_part a + pos_part b ≡ neg_part (a -ℤ b) + pos_part a + neg_part b
unfolding ◌-ℤ◌
-ℤ_parts a b = ground arith

pub eq_of_parts : (a b : ℤ) → pos_part a + neg_part b ≡ pos_part b + neg_part a → a ≡ b
eq_of_parts a b h = ground arith

pub ruleset int_laws = (arith, +ℤ_parts, -ℤ_parts, eq_of_parts)

-- `max(0, a - b)`: how far `b` is behind `a`.
unfoldable pub gap : ℤ → ℤ → ℕ
gap a b = (pos_part a + neg_part b) - (pos_part b + neg_part a)

pub gap_split : (a b c : ℤ) → c ≤ℤ b → b ≤ℤ a → gap a c ≡ gap a b + gap b c
unfolding gap
gap_split a b c h k = omega arith

pub gap-+ℤ : (a : ℤ) (d : ℕ) → gap (a +ℤ pos d) a ≡ d
unfolding gap
gap-+ℤ a d = omega int_laws

-- What comes `d` later than `a`, or after that, is at least `d` ahead of it.
pub le-gap : (a b : ℤ) (d : ℕ) → a +ℤ pos d ≤ℤ b → d ≤ gap b a
unfolding gap
le-gap a b d h = omega int_laws

pub gap-pos : (a b : ℕ) → gap (pos a) (pos b) ≡ a - b
unfolding gap
gap-pos a b = omega arith

pub gap_same : (a : ℤ) → gap a a ≡ 0
unfolding gap
gap_same a = omega arith

-- An instant lies before another by their gap.
pub +ℤ-gap : (a b : ℤ) → b ≤ℤ a → b +ℤ pos (gap a b) ≡ a
unfolding gap
+ℤ-gap a b h = omega int_laws

pub gap--ℤ : (a : ℤ) (d : ℕ) → gap a (a -ℤ pos d) ≡ d
unfolding gap
gap--ℤ a d = omega int_laws

pub gap-pos-+ℤ : (a b c : ℕ) → gap (pos a +ℤ pos b) (pos c) ≡ a + b - c
unfolding gap
gap-pos-+ℤ a b c = omega int_laws

-- Who waits for at least the gap has caught up.
pub le_of_gap : (a b c : ℤ) (d : ℕ) → gap a b ≤ d → b +ℤ pos d ≤ℤ c → a ≤ℤ c
unfolding gap
le_of_gap a b c d h k = omega int_laws
