-- ===== src/Algorithms/SlidingWindow/Limit.antt =====
-- No stretch of one period ever holds more admitted calls than the limit.
use mathlib.Core.List.{append-nil, append_assoc}
use native.Mathlib.Decide.{dec_lt}
use rate_limit_patterns.Prelude.{◌≤◌, ◌≡◌, refl, List, [], ◌∷◌, ◌++◌, arith}
use rate_limit_patterns.Prelude.Int.{ℤ}
use rate_limit_patterns.Prelude.Lists.{length, keep}
use rate_limit_patterns.Prelude.Runs.{IsOrdered}
use rate_limit_patterns.Models.{RateLimitConfig, Scale, IsValid, ok}
use rate_limit_patterns.Algorithms.SlidingWindow.{State, initial_state, in_window, allow}
use rate_limit_patterns.Algorithms.SlidingWindow.Cutoff.{after, between}
use rate_limit_patterns.Algorithms.SlidingWindow.Branches.{compute_allows, compute_denies}
use rate_limit_patterns.Algorithms.SlidingWindow.History.{
  cutoff, Tracks, Tracks-mono, append-Tracks, forget-Tracks,
}
use rate_limit_patterns.Algorithms.SlidingWindow.Run.{admissions}

module _ (s : Scale) (config : RateLimitConfig) (valid : IsValid config) where
  -- From a state that stands for a history, no call raises, and the history with the newly
  -- admitted calls stays within the limit.
  admissions_within :
      (last : ℤ) (state : State) (history ts : List ℤ)
      → IsOrdered last ts
      → Tracks s config last state history
      → (xs : List ℤ) × (admissions s config state ts ≡ ok xs)
        × ((t : ℤ) → length (between (cutoff s config t) t (history ++ xs)) ≤ config.limit)
  unfolding admissions in_window allow
  admissions_within last state history [] h tracks = ([], refl, rw append-nil tracks.within)
  admissions_within last state history (now ∷ ts) h tracks =
      let kept = after (cutoff s config now) state.requests in
      let tracks' = Tracks-mono s config h.0 tracks in
      elim (dec_lt (length kept) config.limit) [
        | yes room ↦
            let state' : State = record {
              requests = kept ++ now ∷ [];
              count = length (kept ++ now ∷ []);
            } in
            let (xs, done, within) =
              admissions_within now state' (history ++ now ∷ []) ts h.1
                (append-Tracks s config now state history room tracks') in
            (
              now ∷ xs,
              rw (compute_allows s config now state room, done),
              rw (← append_assoc history (now ∷ []) xs) within,
            )
        | no full ↦
            let state' : State = record { requests = kept; count = length kept } in
            let (xs, done, within) =
              admissions_within now state' history ts h.1
                (forget-Tracks s config now state history tracks') in
            (xs, rw (compute_denies s config now state valid (omega arith), done), within)
      ]

  -- For a positive limit and period, on a new key that is called at times that never decrease: no
  -- call raises, and whatever stretch of one period is looked at, the admitted calls in it are at
  -- most `limit`.
  pub window_limit :
      (start : ℤ) (ts : List ℤ)
      → IsOrdered start ts
      → (xs : List ℤ) × (admissions s config (initial_state config) ts ≡ ok xs)
        × ((t : ℤ) → length (between (cutoff s config t) t xs) ≤ config.limit)
  unfolding initial_state keep
  window_limit start ts h =
      admissions_within start (initial_state config) [] ts h
        (record { same = λ t le. refl; within = λ t. omega arith })
