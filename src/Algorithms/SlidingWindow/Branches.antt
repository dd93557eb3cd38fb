-- ===== src/Algorithms/SlidingWindow/Branches.antt =====
-- The two branches of `SlidingWindowAlgorithm.compute`.
use rate_limit_patterns.Prelude.{
  ◌≤◌, ◌<◌, ◌≡◌, refl, max, ltb, if◌then◌else◌, Bool-cases, inl, inr, false, some, List, [], ◌∷◌,
  ◌++◌, arith,
}
use rate_limit_patterns.Prelude.Int.{ℤ, pos, ◌+ℤ◌, gap}
use rate_limit_patterns.Prelude.Lists.{length, head_or}
use rate_limit_patterns.Prelude.Quotient.{ceil_div}
use rate_limit_patterns.Models.{RateLimitConfig, Scale, seconds, IsValid, ok}
use rate_limit_patterns.Algorithms.Base.{Decision}
use rate_limit_patterns.Algorithms.SlidingWindow.{State, in_window, allow, deny, compute}

module _ (s : Scale) (config : RateLimitConfig) (now : ℤ) where
  -- The metadata of a denial, with its list of requests known not to be empty.
  abbrev pub denial : List ℤ → Decision State
  denial kept =
      let reset_at = head_or kept now +ℤ pos (seconds s config.period) in
      (
        false,
        record { requests = kept; count = length kept },
        record {
          remaining = pos 0;
          reset_at = reset_at;
          request_count = pos (length kept);
          retry_after = some (pos (max 1 (ceil_div (gap reset_at now) s.ticks)));
        },
      )

  deny_nonempty : (kept : List ℤ) → 0 < length kept → deny s config now kept ≡ ok (denial kept)
  unfolding deny
  deny_nonempty [] h = absurd (omega arith)
  deny_nonempty (x ∷ xs) h = refl

  module _ (state : State) where
    pub compute_allows :
        length (in_window s config now state.requests) < config.limit
        → compute s state config now
          ≡ ok (allow s config now (in_window s config now state.requests ++ now ∷ []))
    unfolding compute
    compute_allows h = ground arith

    -- A valid configuration denies only with a request in the window, so nothing is raised.
    pub compute_denies :
        IsValid config
        → config.limit ≤ length (in_window s config now state.requests)
        → compute s state config now ≡ ok (denial (in_window s config now state.requests))
    unfolding compute
    compute_denies v h = ground (arith, deny_nonempty (in_window s config now state.requests))

    -- The decision where nothing is raised.
    unfoldable pub decide : Decision State
    decide =
        let kept = in_window s config now state.requests in
        if ltb (length kept) config.limit
        then allow s config now (kept ++ now ∷ [])
        else denial kept

    pub compute-decide : IsValid config → compute s state config now ≡ ok decide
    unfolding decide compute
    compute-decide v =
        elim (Bool-cases (ltb (length (in_window s config now state.requests)) config.limit)) [
          | inl room ↦ rw room refl
          | inr full ↦ rw full (deny_nonempty (in_window s config now state.requests) (grind arith))
        ]
