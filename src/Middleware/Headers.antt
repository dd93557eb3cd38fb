-- ===== src/Middleware/Headers.antt =====
-- src/rate_limit_patterns/middleware/headers.py: the HTTP headers of a result. `str(int)` and
-- `str.encode` are the language's, and come in as arguments.
pub mod Lookup
use rate_limit_patterns.Prelude.{
  ℕ, suc, ◌/◌, Bool, true, false, Option, none, some, List, [], map, if◌then◌else◌,
}
use rate_limit_patterns.Prelude.Int.{ℤ, pos, negsuc, ◌-ℤ◌}
use rate_limit_patterns.Prelude.Quotient.{ceil_div}
use rate_limit_patterns.Prelude.Text.{Text, codes}
use rate_limit_patterns.Prelude.Dict.{Dict, insert}
use rate_limit_patterns.Models.{RateLimitResult, Scale}

pub data HeaderStyle : Type 0 where
  x standard both : HeaderStyle

-- `header_style in ("x", "both")`
abbrev pub has_x : HeaderStyle → Bool
has_x x = true
has_x standard = false
has_x both = true

-- `header_style in ("standard", "both")`
abbrev pub has_standard : HeaderStyle → Bool
has_standard x = false
has_standard standard = true
has_standard both = true

-- `int(math.ceil(t))` of an instant: the first whole second that is not before it.
unfoldable pub ceil_seconds : Scale → ℤ → ℤ
ceil_seconds s (pos n) = pos (ceil_div n s.ticks)
ceil_seconds s (negsuc n) = pos 0 -ℤ pos (suc n / s.ticks)

abbrev pub Headers : Type 0
Headers = Dict Text

-- `if test: headers[name] = value`
abbrev pub set_if : Bool → Text → Text → Headers → Headers
set_if test name value headers = if test then insert name value headers else headers

module _ (s : Scale) (str : ℤ → Text) where
  unfoldable pub limit_headers : RateLimitResult → HeaderStyle → Headers
  limit_headers result style =
      let limit = str (pos result.limit) in
      let remaining = str result.remaining in
      set_if (has_standard style) (codes "RateLimit-Remaining") remaining (
        set_if (has_standard style) (codes "RateLimit-Limit") limit (
          set_if (has_x style) (codes "X-RateLimit-Remaining") remaining
            (set_if (has_x style) (codes "X-RateLimit-Limit") limit [])))

  unfoldable pub retry_header : Option ℤ → Headers → Headers
  retry_header none headers = headers
  retry_header (some retry_after) headers = insert (codes "Retry-After") (str retry_after) headers

  unfoldable pub reset_headers : Option ℤ → HeaderStyle → Headers → Headers
  reset_headers none style headers = headers
  reset_headers (some instant) style headers =
      let reset_at = str (ceil_seconds s instant) in
      set_if (has_standard style) (codes "RateLimit-Reset") reset_at
        (set_if (has_x style) (codes "X-RateLimit-Reset") reset_at headers)

  unfoldable pub build_rate_limit_headers : RateLimitResult → HeaderStyle → Headers
  build_rate_limit_headers result style =
      reset_headers result.reset_at style
        (retry_header result.retry_after (limit_headers result style))

  module _ {Bytes : Type 0} (encode : Text → Bytes) where
    unfoldable pub build_rate_limit_header_bytes :
        RateLimitResult → HeaderStyle → List (Bytes × Bytes)
    build_rate_limit_header_bytes result style =
        map (λ (name, value). (encode name, encode value)) (build_rate_limit_headers result style)
