-- ===== src/Algorithms/SlidingWindow/Cutoff.antt =====
-- Lists of instants cut off by `[t for t in requests if t > cutoff]`.
use rate_limit_patterns.Prelude.{◌≤◌, ◌≡◌, refl, ◌&&◌, List, [], ◌∷◌, ◌++◌, arith}
use rate_limit_patterns.Prelude.Int.{ℤ, ◌≤ℤ◌, ◌<ℤ◌, ltb_ℤ, leb_ℤ}
use rate_limit_patterns.Prelude.Lists.{length, keep}

-- The instants after `cutoff`.
abbrev pub after : ℤ → List ℤ → List ℤ
after cutoff = keep (λ t. ltb_ℤ cutoff t)

-- The instants after `cutoff` and up to `end`.
abbrev pub between : ℤ → ℤ → List ℤ → List ℤ
between cutoff end = keep (λ t. ltb_ℤ cutoff t && leb_ℤ t end)

-- A later cutoff makes the earlier one needless.
pub after-after :
    (early late : ℤ) (xs : List ℤ) → early ≤ℤ late → after late (after early xs) ≡ after late xs
unfolding keep
after-after early late [] h = refl
after-after early late (x ∷ xs) h = ground (arith, after-after early late xs h)

pub length-between-le :
    (cutoff end : ℤ) (xs : List ℤ) → length (between cutoff end xs) ≤ length (after cutoff xs)
unfolding keep
length-between-le cutoff end [] = omega arith
length-between-le cutoff end (x ∷ xs) = ground (arith, length-between-le cutoff end xs)

pub length-after-le :
    (early late : ℤ) (xs : List ℤ)
    → early ≤ℤ late
    → length (after late xs) ≤ length (after early xs)
unfolding keep
length-after-le early late [] h = omega arith
length-after-le early late (x ∷ xs) h = ground (arith, length-after-le early late xs h)

-- An instant after the end of the stretch does not count.
pub between-append_late :
    (cutoff end : ℤ) (xs : List ℤ) (x : ℤ)
    → end <ℤ x
    → between cutoff end (xs ++ x ∷ []) ≡ between cutoff end xs
unfolding keep
between-append_late cutoff end [] x h = ground arith
between-append_late cutoff end (y ∷ xs) x h = ground (arith, between-append_late cutoff end xs x h)
