-- ===== src/Algorithms/SlidingWindow/Ideal.antt =====
-- The pruned log decides as a log that forgets nothing.
use native.Mathlib.Decide.{dec_lt}
use rate_limit_patterns.Prelude.{
  if◌then◌else◌, ◌≡◌, refl, ap, true, false, ltb, List, [], ◌∷◌, ◌++◌, arith,
}
use rate_limit_patterns.Prelude.Int.{ℤ}
use rate_limit_patterns.Prelude.Lists.{length, keep}
use rate_limit_patterns.Prelude.Runs.{IsOrdered}
use rate_limit_patterns.Models.{RateLimitConfig, Scale, IsValid, ok}
use rate_limit_patterns.Algorithms.SlidingWindow.{State, initial_state, in_window, allow}
use rate_limit_patterns.Algorithms.SlidingWindow.Cutoff.{after}
use rate_limit_patterns.Algorithms.SlidingWindow.Branches.{compute_allows, compute_denies}
use rate_limit_patterns.Algorithms.SlidingWindow.History.{
  cutoff, Tracks, Tracks-mono, append-Tracks, forget-Tracks,
}
use rate_limit_patterns.Algorithms.SlidingWindow.Run.{admissions}

module _ (s : Scale) (config : RateLimitConfig) where
  -- A log that never forgets a request, and admits a call where it counts fewer than `limit`
  -- requests after the cutoff.
  unfoldable pub ideal : List ℤ → List ℤ → List ℤ
  ideal history [] = []
  ideal history (now ∷ ts) =
      let taken = now ∷ ideal (history ++ now ∷ []) ts in
      let skipped = ideal history ts in
      if ltb (length (after (cutoff s config now) history)) config.limit then taken else skipped

module _ (s : Scale) (config : RateLimitConfig) (valid : IsValid config) where
  admissions_tracked :
      (last : ℤ) (state : State) (history ts : List ℤ)
      → IsOrdered last ts
      → Tracks s config last state history
      → admissions s config state ts ≡ ok (ideal s config history ts)
  unfolding admissions in_window allow ideal
  admissions_tracked last state history [] h tracks = refl
  admissions_tracked last state history (now ∷ ts) h tracks =
      let kept = after (cutoff s config now) state.requests in
      let tracks' : Tracks s config now state history = Tracks-mono s config h.0 tracks in
      let same : length (after (cutoff s config now) state.requests)
          ≡ length (after (cutoff s config now) history) =
        ap length (tracks'.same now (omega arith)) in
      elim (dec_lt (length kept) config.limit) [
        | yes room ↦
            let state' : State = record {
              requests = kept ++ now ∷ [];
              count = length (kept ++ now ∷ []);
            } in
            let counted : ltb (length (after (cutoff s config now) history)) config.limit ≡ true =
              ground arith in
            rw (
              compute_allows s config now state room,
              counted,
              admissions_tracked now state' (history ++ now ∷ []) ts h.1
                  (append-Tracks s config now state history room tracks'),
            )
        | no full ↦
            let state' : State = record { requests = kept; count = length kept } in
            let counted : ltb (length (after (cutoff s config now) history)) config.limit ≡ false =
              ground arith in
            rw (
              compute_denies s config now state valid (omega arith),
              counted,
              admissions_tracked now state' history ts h.1
                  (forget-Tracks s config now state history tracks'),
            )
      ]

  -- On a new key, calls at non-decreasing times are admitted exactly as by the log that never
  -- forgets: dropping what has left the window changes no decision, and no call raises.
  pub admissions-ideal :
      (start : ℤ) (ts : List ℤ)
      → IsOrdered start ts
      → admissions s config (initial_state config) ts ≡ ok (ideal s config [] ts)
  unfolding initial_state keep
  admissions-ideal start ts h =
      admissions_tracked start (initial_state config) [] ts h
        (record { same = λ t le. refl; within = λ t. omega arith })
