-- ===== src/Backend/Lua/SlidingWindow/Contract.antt =====
-- sliding_window.lua against `SlidingWindowAlgorithm`.
use mathlib.Core.Option
use rate_limit_patterns.Prelude.{
  ℕ, ◌*◌, ◌<◌, max, Bool, false, ◌≡◌, refl, Option, List, [], ◌∷◌, ◌++◌,
}
use rate_limit_patterns.Prelude.Int.{ℤ, pos}
use rate_limit_patterns.Prelude.Text.{Text, codes, text_eq}
use rate_limit_patterns.Models.{RateLimitConfig, Scale, IsValid, ok}
use rate_limit_patterns.Algorithms.Base.{Metadata}
use rate_limit_patterns.Algorithms.SlidingWindow.{State, initial_state}
use rate_limit_patterns.Algorithms.SlidingWindow.Branches.{decide, compute-decide}
use rate_limit_patterns.Algorithms.SlidingWindow.Run.{responses}
use rate_limit_patterns.Backend.RedisShared.{window_call, time_arg}
use rate_limit_patterns.Backend.Lua.{Commands}
use rate_limit_patterns.Backend.Lua.Trace.{
  AllState, Call, replies, times, LeftAlone, decisions, replies-AllState,
}
use rate_limit_patterns.Backend.Lua.SlidingWindow.{SetCommands, script_time, script, eval}
use rate_limit_patterns.Backend.Lua.SlidingWindow.Sets.{
  KeepsSets, Undisturbed, Absent, Absent-Holds,
}
use rate_limit_patterns.Backend.Lua.SlidingWindow.Step.{Shows, run-Shows, trim-InWindow}

module _ (s : Scale) (config : RateLimitConfig) (valid : IsValid config) where
  decisions-responses :
      (state : State) (ts : List ℤ)
      → responses s config state ts
        ≡ ok (decisions (λ state now. decide s config now state) state ts)
  unfolding decisions responses
  decisions-responses state [] = refl
  decisions-responses state (t ∷ ts) =
      rw (compute-decide s config t state valid, decisions-responses (decide s config t state).1 ts)
        refl

  module _ (ticks_pos : 0 < s.ticks) {W : Type 0} (c : Commands W) (z : SetCommands W)
      (keeps : KeepsSets c z) (apply_prefix : Text → Text) (key : Text) where
    -- The script on the KEYS and ARGV of a check.
    abbrev pub evaluate : W → Option ℕ → List ℤ × W
    evaluate w supplied =
        let call = window_call key config (Option.map pos supplied) apply_prefix in
        Option.get_or (eval s c z w call.keys call.args) ([], w)

    -- The time of a call, supplied or the server's.
    abbrev pub window_time : W → Option ℕ → ℕ
    window_time w supplied = script_time s c z w (time_arg (Option.map pos supplied))

    evaluate-script :
        (w : W) (supplied : Option ℕ)
        → evaluate w supplied
          ≡ script s c z w
              (apply_prefix key)
              (apply_prefix (key ++ codes ":seq"))
              config.limit
              config.period
              (window_time w supplied)
    unfolding window_call eval
    evaluate-script w supplied = refl

    -- The replies to a sequence of calls of one key, from a server that does not hold it, state what
    -- the algorithm decides at the times of the calls, and it raises nothing: the same decision,
    -- remaining and counted calls and wait, which `parse_script_result` reads back from them, and the
    -- reset to the second. It is asked that the configuration is valid, that the prefix keeps the two
    -- keys apart, that sets and counters behave as documented, that the keys are left alone or expire
    -- in time between the calls, and that the times never decrease.
    pub window_replies-responses :
        text_eq (apply_prefix (key ++ codes ":seq")) (apply_prefix key) ≡ false
        → (w : W) (calls : List (Call W))
        → Absent s c z keeps (apply_prefix key) (apply_prefix (key ++ codes ":seq")) w
        → LeftAlone evaluate window_time
            (max 1 config.period * s.ticks)
            (Undisturbed s c z keeps (apply_prefix key) (apply_prefix (key ++ codes ":seq")))
            (Absent s c z keeps (apply_prefix key) (apply_prefix (key ++ codes ":seq")))
            0
            w
            calls
        → (told : List (Bool × Metadata)) × (responses s config
              (initial_state config)
              (times evaluate window_time w calls)
            ≡ ok told)
          × AllState s (replies evaluate w calls) told
    unfolding initial_state
    window_replies-responses apart w calls absent left =
        let seq_key = apply_prefix (key ++ codes ":seq") in
        (
          decisions (λ state now. decide s config now state) (initial_state config)
              (times evaluate window_time w calls),
          decisions-responses (initial_state config) (times evaluate window_time w calls),
          replies-AllState evaluate window_time (max 1 config.period * s.ticks)
              (Undisturbed s c z keeps (apply_prefix key) seq_key)
              (Absent s c z keeps (apply_prefix key) seq_key) s
              (λ state now. decide s config now state)
              (Shows s c z keeps (apply_prefix key) seq_key config)
              (λ last w state meanwhile supplied shows le quiet.
                rw (evaluate-script (meanwhile w) supplied) (
                  run-Shows s c z keeps (apply_prefix key) seq_key config valid ticks_pos apart
                    (window_time (meanwhile w) supplied) (meanwhile w) state
                    (trim-InWindow s c z keeps (apply_prefix key) seq_key config last
                      (window_time (meanwhile w) supplied) w (meanwhile w) state shows le quiet)))
              0 w (initial_state config) calls
              (record {
                kept = [];
                held = Absent-Holds s c z keeps (apply_prefix key) seq_key w 0 absent;
                stored = refl;
              })
              left,
        )
