-- ===== src/Middleware/Headers/Lookup.antt =====
-- Which headers a result has, by name.
use rate_limit_patterns.Prelude.{
  ℕ, suc, ◌/◌, ◌+◌, ◌-◌, ◌*◌, ◌<◌, ◌≡◌, refl, ap, Option, none, some, arith,
}
use mathlib.Core.Option
use rate_limit_patterns.Prelude.Int.{
  ℤ, pos, negsuc, ◌+ℤ◌, ◌-ℤ◌, ◌≤ℤ◌, ◌<ℤ◌, pos_part, neg_part, int_laws,
}
use rate_limit_patterns.Prelude.Quotient.{ceil_div, ceil_div_covers, floor_bounds}
use rate_limit_patterns.Prelude.Text.{Text, codes, text_eq}
use rate_limit_patterns.Prelude.Dict.{get, insert}
use rate_limit_patterns.Models.{RateLimitResult, Scale}
use rate_limit_patterns.Middleware.Headers.{
  HeaderStyle, x, standard, both, ceil_seconds, limit_headers, retry_header, reset_headers,
  build_rate_limit_headers,
}

-- What a header that starts with "X-" holds, and one that does not, by the style.
abbrev pub x_value : HeaderStyle → Option Text → Option Text
x_value x value = value
x_value standard value = none
x_value both value = value

abbrev pub standard_value : HeaderStyle → Option Text → Option Text
standard_value x value = none
standard_value standard value = value
standard_value both value = value

-- A number of seconds, which may be negative, in ticks.
abbrev pub ticks_of : Scale → ℤ → ℤ
ticks_of s second = pos (pos_part second * s.ticks) -ℤ pos (neg_part second * s.ticks)

-- The first whole second that is not before the instant: none where there is no instant.
abbrev pub IsRoundedUp : Scale → Option ℤ → Option ℤ → Type 0
IsRoundedUp s none none = Unit
IsRoundedUp s none (some second) = ⊥
IsRoundedUp s (some t) none = ⊥
IsRoundedUp s (some t) (some second) =
    (t ≤ℤ ticks_of s second) × (ticks_of s second <ℤ t +ℤ pos s.ticks)

negated : (q : ℕ) → (pos_part (pos 0 -ℤ pos q) ≡ 0) × (neg_part (pos 0 -ℤ pos q) ≡ q)
unfolding ◌-ℤ◌
negated q = (ground arith, ground arith)

ticks_of-negated : (s : Scale) (q : ℕ) → ticks_of s (pos 0 -ℤ pos q) ≡ pos 0 -ℤ pos (q * s.ticks)
ticks_of-negated s q =
    let none_of : 0 * s.ticks ≡ 0 = omega arith in
    rw ((negated q).0, (negated q).1) (ap (λ (n : ℕ). pos n -ℤ pos (q * s.ticks)) none_of)

-- It covers by less than one more divisor.
ceil_div-exceeds : (a b : ℕ) → 0 < b → ceil_div a b * b < a + b
unfolding ceil_div
ceil_div-exceeds a b h = omega (arith, (floor_bounds (a + (b - 1)) b h).0)

module _ (s : Scale) (str : ℤ → Text) where
  ceil_seconds-covers : (t : ℤ) → 0 < s.ticks → t ≤ℤ ticks_of s (ceil_seconds s t)
  unfolding ceil_seconds
  ceil_seconds-covers (pos n) h = omega (int_laws, ceil_div_covers n s.ticks h)
  ceil_seconds-covers (negsuc n) h =
      rw (ticks_of-negated s (suc n / s.ticks))
        (omega (int_laws, (floor_bounds (suc n) s.ticks h).0))

  ceil_seconds-least : (t : ℤ) → 0 < s.ticks → ticks_of s (ceil_seconds s t) <ℤ t +ℤ pos s.ticks
  unfolding ceil_seconds
  ceil_seconds-least (pos n) h = omega (int_laws, ceil_div-exceeds n s.ticks h)
  ceil_seconds-least (negsuc n) h =
      rw (ticks_of-negated s (suc n / s.ticks))
        (omega (int_laws, (floor_bounds (suc n) s.ticks h).1))

  reset_second-IsRoundedUp :
      (reset_at : Option ℤ)
      → 0 < s.ticks
      → IsRoundedUp s reset_at (Option.map (ceil_seconds s) reset_at)
  reset_second-IsRoundedUp none h = tt
  reset_second-IsRoundedUp (some t) h = (ceil_seconds-covers t h, ceil_seconds-least t h)

  headers_of :
      (result : RateLimitResult) (style : HeaderStyle) (retry_after reset_at : Option ℤ)
      → (let headers =
            reset_headers s str reset_at style
              (retry_header s str retry_after (limit_headers s str result style)) in
          let second = Option.map str (Option.map (ceil_seconds s) reset_at) in
          (get (codes "X-RateLimit-Limit") headers ≡ x_value style (some (str (pos result.limit))))
          × (get (codes "X-RateLimit-Remaining") headers
              ≡ x_value style (some (str result.remaining)))
          × (get (codes "RateLimit-Limit") headers
              ≡ standard_value style (some (str (pos result.limit))))
          × (get (codes "RateLimit-Remaining") headers
              ≡ standard_value style (some (str result.remaining)))
          × (get (codes "Retry-After") headers ≡ Option.map str retry_after)
          × (get (codes "X-RateLimit-Reset") headers ≡ x_value style second)
          × (get (codes "RateLimit-Reset") headers ≡ standard_value style second))
  unfolding limit_headers retry_header reset_headers get insert text_eq
  headers_of result x none none = (refl, refl, refl, refl, refl, refl, refl)
  headers_of result x none (some t) = (refl, refl, refl, refl, refl, refl, refl)
  headers_of result x (some r) none = (refl, refl, refl, refl, refl, refl, refl)
  headers_of result x (some r) (some t) = (refl, refl, refl, refl, refl, refl, refl)
  headers_of result standard none none = (refl, refl, refl, refl, refl, refl, refl)
  headers_of result standard none (some t) = (refl, refl, refl, refl, refl, refl, refl)
  headers_of result standard (some r) none = (refl, refl, refl, refl, refl, refl, refl)
  headers_of result standard (some r) (some t) = (refl, refl, refl, refl, refl, refl, refl)
  headers_of result both none none = (refl, refl, refl, refl, refl, refl, refl)
  headers_of result both none (some t) = (refl, refl, refl, refl, refl, refl, refl)
  headers_of result both (some r) none = (refl, refl, refl, refl, refl, refl, refl)
  headers_of result both (some r) (some t) = (refl, refl, refl, refl, refl, refl, refl)

  -- With at least one tick to a second: the headers that start with "X-RateLimit" are there in the
  -- styles "x" and "both", those that start with "RateLimit" in the styles "standard" and "both",
  -- with the limit, the remaining capacity, and, where the result has a reset, the first whole second
  -- that is not before it; and "Retry-After" is there in every style, with the wait of a result that
  -- has one.
  pub build_rate_limit_headers-lookup :
      (result : RateLimitResult) (style : HeaderStyle)
      → 0 < s.ticks
      → (second : Option ℤ) × IsRoundedUp s result.reset_at second
        × (let headers = build_rate_limit_headers s str result style in
            (get (codes "X-RateLimit-Limit") headers
              ≡ x_value style (some (str (pos result.limit))))
            × (get (codes "X-RateLimit-Remaining") headers
                ≡ x_value style (some (str result.remaining)))
            × (get (codes "RateLimit-Limit") headers
                ≡ standard_value style (some (str (pos result.limit))))
            × (get (codes "RateLimit-Remaining") headers
                ≡ standard_value style (some (str result.remaining)))
            × (get (codes "Retry-After") headers ≡ Option.map str result.retry_after)
            × (get (codes "X-RateLimit-Reset") headers ≡ x_value style (Option.map str second))
            × (get (codes "RateLimit-Reset") headers
                ≡ standard_value style (Option.map str second)))
  unfolding build_rate_limit_headers
  build_rate_limit_headers-lookup result style h = (
    Option.map (ceil_seconds s) result.reset_at,
    reset_second-IsRoundedUp result.reset_at h,
    headers_of result style result.retry_after result.reset_at,
  )
