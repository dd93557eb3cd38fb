-- ===== src/Backend/Core/Window.antt =====
-- The limit of the sliding window, for one key of a store that many keys share.
use rate_limit_patterns.Prelude.{
  ◌≡◌, refl, ap, sym, ◌∙◌, ◌≤◌, Bool, Bool-cases, inl, inr, List, [], ◌∷◌, arith, if◌then◌else◌,
}
use rate_limit_patterns.Prelude.Int.{ℤ, ◌≤ℤ◌}
use rate_limit_patterns.Prelude.Lists.{length}
use rate_limit_patterns.Prelude.Runs.{IsOrdered}
use rate_limit_patterns.Prelude.Text.{Text, text_eq}
use rate_limit_patterns.Models.{
  RateLimitConfig, Scale, IsValid, IsResolved, sliding_window, Result, ok, raise, ok-injective,
}
use rate_limit_patterns.Algorithms.Base.{Metadata}
use rate_limit_patterns.Algorithms.SlidingWindow.{State, initial_state}
use rate_limit_patterns.Algorithms.SlidingWindow.Branches.{decide, compute-decide}
use rate_limit_patterns.Algorithms.SlidingWindow.Cutoff.{between}
use rate_limit_patterns.Algorithms.SlidingWindow.History.{cutoff}
use rate_limit_patterns.Algorithms.SlidingWindow.Limit.{window_limit}
use rate_limit_patterns.Algorithms.SlidingWindow.Run.{admissions}
use rate_limit_patterns.Algorithms.Protocol.{
  window, sliding_window_algorithm, compute_sliding_window,
}
use rate_limit_patterns.Backend.Core.{algorithm_for}
use rate_limit_patterns.Backend.Core.Refinement.{
  alone, answers_to, times_of, InOrder, answers_to-alone,
}

-- The times of the calls that were allowed.
unfoldable pub admitted_at : List ℤ → List (Result (Bool × Metadata)) → List ℤ
admitted_at [] answers = []
admitted_at (t ∷ ts) [] = []
admitted_at (t ∷ ts) (ok (allowed, m) ∷ answers) =
    let rest = admitted_at ts answers in if allowed then t ∷ rest else rest
admitted_at (t ∷ ts) (raise e ∷ answers) = admitted_at ts answers

IsOrdered-times_of :
    (key : Text) (start first : ℤ) (calls : List (Text × ℤ))
    → start ≤ℤ first
    → InOrder first calls
    → IsOrdered start (times_of key calls)
unfolding times_of
IsOrdered-times_of key start first [] le h = tt
IsOrdered-times_of key start first ((k, t) ∷ calls) le h = elim (Bool-cases (text_eq k key)) [
  | inl same ↦ rw same (omega arith, IsOrdered-times_of key t t calls (omega arith) h.1)
  | inr other ↦ rw other (IsOrdered-times_of key start t calls (omega arith) h.1)
]

module _ (s : Scale) (config : RateLimitConfig) (valid : IsValid config) where
  admissions-admitted_at :
      (state : State) (ts : List ℤ)
      → admissions s config state ts
        ≡ ok (admitted_at ts (alone config (sliding_window_algorithm s) (window state) ts))
  unfolding admissions admitted_at alone compute_sliding_window
  admissions-admitted_at state [] = refl
  admissions-admitted_at state (t ∷ ts) =
      rw
        (
          compute-decide s config t state valid,
          alone,
          admissions-admitted_at (decide s config t state).1 ts,
        )
        refl

  -- For one valid and resolved configuration of the sliding window, on an empty store: when all keys
  -- are checked with this configuration, at times that never decrease from one check to the next,
  -- then whatever other keys are checked in between and whatever expires, in whatever stretch of one
  -- period at most `limit` checks of a key are allowed.
  pub store_window_limit :
      IsResolved s config
      → config.algorithm ≡ sliding_window
      → (key : Text) (start time_offset : ℤ) (calls : List (Text × ℤ)) → InOrder start calls
      → (t : ℤ)
      → length (
          between (cutoff s config t) t (
            admitted_at (times_of key calls) (
              answers_to s config
                (sliding_window_algorithm s)
                key
                (record { state = []; time_offset = time_offset })
                calls)))
        ≤ config.limit
  unfolding algorithm_for
  store_window_limit r e key start time_offset calls h t =
      let known : algorithm_for s config.algorithm ≡ ok (sliding_window_algorithm s) =
        ap (algorithm_for s) e in
      let (xs, done, within) =
        window_limit s config valid start (times_of key calls)
          (IsOrdered-times_of key start start calls (omega arith) h) in
      let same =
        ok-injective
          (sym done ∙ admissions-admitted_at (initial_state config) (times_of key calls)) in
      rw
        (answers_to-alone s config r valid (sliding_window_algorithm s) known key start time_offset
          calls h)
        (rw (← same) (within t))
