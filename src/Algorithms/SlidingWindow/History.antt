-- ===== src/Algorithms/SlidingWindow/History.antt =====
-- The log of a sliding window stands for the history of all admitted calls.
use native.Mathlib.Decide.{dec_lt}
use rate_limit_patterns.Prelude.{◌+◌, ◌≤◌, ◌<◌, ◌≡◌, ◌∙◌, ap, sym, List, [], ◌∷◌, ◌++◌, arith}
use rate_limit_patterns.Prelude.Int.{ℤ, pos, pos_part, neg_part, ◌-ℤ◌, ◌≤ℤ◌, ltb_ℤ, int_laws}
use rate_limit_patterns.Prelude.Lists.{length, length-keep-le, length-append, keep-append}
use rate_limit_patterns.Models.{RateLimitConfig, Scale, seconds}
use rate_limit_patterns.Algorithms.SlidingWindow.{State}
use rate_limit_patterns.Algorithms.SlidingWindow.Cutoff.{
  after, between, after-after, length-between-le, length-after-le, between-append_late,
}

module _ (s : Scale) (config : RateLimitConfig) where
  abbrev pub cutoff : ℤ → ℤ
  cutoff t = t -ℤ pos (seconds s config.period)

  -- The state stands for a history of admitted calls, none of whose periods is over the limit.
  pub record Tracks (last : ℤ) (state : State) (history : List ℤ) : Type 0 where
    pub same : (t : ℤ) → last ≤ℤ t → after (cutoff t) state.requests ≡ after (cutoff t) history
    pub within : (t : ℤ) → length (between (cutoff t) t history) ≤ config.limit

  pub Tracks-mono :
      {last now : ℤ} {state : State} {history : List ℤ}
      → last ≤ℤ now
      → Tracks last state history
      → Tracks now state history
  Tracks-mono h tracks = record {
    same = λ t le. tracks.same t (omega arith);
    within = tracks.within;
  }

  pub forget-Tracks :
      (now : ℤ) (state : State) (history : List ℤ)
      → Tracks now state history
      → Tracks now
          (record {
            requests = after (cutoff now) state.requests;
            count = length (after (cutoff now) state.requests);
          })
          history
  forget-Tracks now state history tracks = record {
    same = λ t le.
        after-after (cutoff now) (cutoff t) state.requests (omega int_laws) ∙ tracks.same t le;
    within = tracks.within;
  }

  pub append-Tracks :
      (now : ℤ) (state : State) (history : List ℤ)
      → length (after (cutoff now) state.requests) < config.limit
      → Tracks now state history
      → Tracks now
          (record {
            requests = after (cutoff now) state.requests ++ now ∷ [];
            count = length (after (cutoff now) state.requests ++ now ∷ []);
          })
          (history ++ now ∷ [])
  append-Tracks now state history room tracks = record {
    same = λ t le.
        let after_t = λ (x : ℤ). ltb_ℤ (cutoff t) x in
        keep-append after_t (after (cutoff now) state.requests) (now ∷ [])
        ∙ ap (λ l. l ++ after (cutoff t) (now ∷ []))
            (after-after (cutoff now) (cutoff t) state.requests (omega int_laws) ∙ tracks.same t le)
        ∙ sym (keep-append after_t history (now ∷ []));
    within = λ t. elim (dec_lt (pos_part t + neg_part now) (pos_part now + neg_part t)) [
      | yes past ↦ rw (between-append_late (cutoff t) t history now past) (tracks.within t)
      | no recent ↦
          let after_now = λ (x : ℤ). ltb_ℤ (cutoff now) x in
          omega (
            arith,
            length-between-le (cutoff t) t (history ++ now ∷ []),
            length-after-le (cutoff now) (cutoff t) (history ++ now ∷ []) (omega int_laws),
            ap length (keep-append after_now history (now ∷ [])),
            length-append (after (cutoff now) history) (after (cutoff now) (now ∷ [])),
            length-keep-le after_now (now ∷ []),
            ap length (tracks.same now (omega arith)),
          )
    ];
  }
