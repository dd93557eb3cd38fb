-- ===== src/Algorithms/SlidingWindow/Retry.antt =====
-- The size of a sliding window's log, and the wait that a denied call is told.
use native.Mathlib.Decide.{dec_lt}
use rate_limit_patterns.Prelude.{
  ℕ, ◌*◌, ◌≤◌, ◌<◌, ◌≡◌, refl, ap, max, false, true, some, List, [], ◌∷◌, ◌++◌, arith,
}
use rate_limit_patterns.Prelude.Int.{
  ℤ, pos, ◌+ℤ◌, ◌≤ℤ◌, ◌-ℤ◌, ltb_ℤ, gap, int_laws, le_of_gap, +ℤ_parts, -ℤ_parts,
}
use rate_limit_patterns.Prelude.Lists.{length, head_or, keep, length-append, length-keep-le}
use rate_limit_patterns.Prelude.Quotient.{ceil_div, ceil_div_covers, mul_le_mul}
use rate_limit_patterns.Models.{RateLimitConfig, Scale, seconds, IsValid, ok}
use rate_limit_patterns.Algorithms.Base.{Metadata, Decision}
use rate_limit_patterns.Algorithms.SlidingWindow.{State, in_window, allow, compute}
use rate_limit_patterns.Algorithms.SlidingWindow.Branches.{denial, compute_allows, compute_denies}

-- The log is no longer than the limit, and `count` is its length.
pub record IsBounded (config : RateLimitConfig) (state : State) : Type 0 where
  pub length_le : length state.requests ≤ config.limit
  pub counted : state.count ≡ length state.requests

module _ (s : Scale) (config : RateLimitConfig) (valid : IsValid config) (state : State)
    (now : ℤ) where
  abbrev kept : List ℤ
  kept = in_window s config now state.requests

  length-kept-le : length kept ≤ length state.requests
  unfolding in_window
  length-kept-le = length-keep-le _ state.requests

  -- A call on a bounded log raises nothing and leaves a bounded log, and what it reports as counted
  -- and as remaining makes up the limit.
  pub compute-IsBounded :
      IsBounded config state
      → (d : Decision State) × (compute s state config now ≡ ok d)
        × IsBounded config d.1
        × (d.2.remaining +ℤ d.2.request_count ≡ pos config.limit)
        × (d.2.request_count ≡ pos d.1.count)
  unfolding allow
  compute-IsBounded b = elim (dec_lt (length kept) config.limit) [
    | yes room ↦ (
      allow s config now (kept ++ now ∷ []),
      compute_allows s config now state room,
      record { length_le = omega (arith, length-append kept (now ∷ [])); counted = refl },
      omega (int_laws, length-append kept (now ∷ [])),
      refl,
    )
    | no full ↦ (
      denial s config now kept,
      compute_denies s config now state valid (omega arith),
      record { length_le = omega (arith, length-kept-le); counted = refl },
      omega (int_laws, length-kept-le),
      refl,
    )
  ]

  -- One second at least, and enough for the oldest request to leave the window.
  wait : ℕ
  wait = max 1 (ceil_div (gap (head_or kept now +ℤ pos (seconds s config.period)) now) s.ticks)

  in_window_shrinks :
      (xs : List ℤ) (later : ℤ)
      → 0 < length xs
      → head_or xs now +ℤ pos (seconds s config.period) ≤ℤ later
      → length (in_window s config later xs) < length xs
  unfolding in_window keep
  in_window_shrinks [] later h le = absurd (omega arith)
  in_window_shrinks (x ∷ xs) later h le =
      let window = pos (seconds s config.period) in
      ground (
        arith,
        +ℤ_parts x window,
        -ℤ_parts later window,
        length-keep-le (λ t. ltb_ℤ (later -ℤ window) t) xs,
      )

  -- The branch that was taken, read off the result.
  denied_full :
      (after : State) (m : Metadata)
      → compute s state config now ≡ ok (false, after, m)
      → (config.limit ≤ length kept) × ((false, after, m) ≡ denial s config now kept)
  unfolding allow
  denied_full after m denied = elim (dec_lt (length kept) config.limit) [
    | yes room ↦ absurd (cc (compute_allows s config now state room))
    | no full ↦ (omega arith, cc (compute_denies s config now state valid (omega arith)))
  ]

  admitted_after_wait :
      0 < s.ticks
      → IsBounded config state
      → config.limit ≤ length kept
      → (later : ℤ) → now +ℤ pos (seconds s wait) ≤ℤ later
      → length (in_window s config later kept) < config.limit
  unfolding wait seconds
  admitted_after_wait ticks b full later le =
      let reset_at = head_or kept now +ℤ pos (seconds s config.period) in
      let left : ℕ = gap reset_at now in
      let enough = ceil_div_covers left s.ticks ticks in
      let longer = mul_le_mul (ceil_div left s.ticks) wait s.ticks (omega arith) in
      omega (
        arith,
        in_window_shrinks kept later (omega arith)
            (le_of_gap reset_at now later (wait * s.ticks) (omega arith) le),
        length-kept-le,
      )

  -- A denied call on a bounded log is told a number of seconds after which a call is admitted, if
  -- no other call comes in between; after any longer time it is admitted too.
  pub retry_after-frees :
      0 < s.ticks
      → IsBounded config state
      → (after : State) (m : Metadata) → compute s state config now ≡ ok (false, after, m)
      → (n : ℕ) × (m.retry_after ≡ some (pos n))
        × (0 < n)
        × ((later : ℤ)
            → now +ℤ pos (seconds s n) ≤ℤ later
            → (d : Decision State) × (compute s after config later ≡ ok d) × (d.0 ≡ true))
  unfolding wait allow
  retry_after-frees ticks b after m denied =
      let (full, e) = denied_full after m denied in
      (
        wait,
        cc e,
        omega arith,
        λ later le.
            let again = in_window s config later after.requests in
            (
              allow s config later (again ++ later ∷ []),
              compute_allows s config later after (
                  rw (ap (λ (d : Decision State). d.1.requests) e)
                    (admitted_after_wait ticks b full later le)),
              refl,
            ),
      )
