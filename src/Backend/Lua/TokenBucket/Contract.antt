-- ===== src/Backend/Lua/TokenBucket/Contract.antt =====
-- token_bucket.lua against `TokenBucketAlgorithm`.
use mathlib.Core.Option
use mathlib.Core.Path.{subst}
use rate_limit_patterns.Prelude.{ℕ, ◌*◌, ◌≡◌, ◌≢◌, refl, Option, some, List, []}
use rate_limit_patterns.Prelude.Int.{ℤ, pos}
use rate_limit_patterns.Prelude.Text.{Text}
use rate_limit_patterns.Models.{RateLimitConfig, Scale, IsResolved, capacity, tokens_per_second}
use rate_limit_patterns.Algorithms.TokenBucket.{compute, initial_state}
use rate_limit_patterns.Backend.Lua.{Commands}
use rate_limit_patterns.Backend.Lua.Trace.{
  KeepsHashes, AllState, Call, call_time, replies, times, LeftAlone, replies-AllState, Undisturbed,
  Absent,
}
use rate_limit_patterns.Backend.RedisShared.Contract.{burst_or_limit-capacity}
use rate_limit_patterns.Backend.RedisShared.{bucket_call}
use rate_limit_patterns.Algorithms.TokenBucket.Run.{responses}
use rate_limit_patterns.Backend.Lua.TokenBucket.{ttl, script, eval}
use rate_limit_patterns.Backend.Lua.TokenBucket.Step.{
  Shows, unseen, decisions-responses, run-Shows, refilled-Shows,
}

module _ (s : Scale) (config : RateLimitConfig) (r : IsResolved s config)
    (burst : config.burst_size ≢ some 0) {W : Type 0} (c : Commands W) (keeps : KeepsHashes c)
    (apply_prefix : Text → Text) (key : Text) where
  -- The script on the KEYS and ARGV of a check.
  abbrev pub evaluate : W → Option ℕ → List ℤ × W
  evaluate w supplied =
      let call = bucket_call s key config (Option.map pos supplied) apply_prefix in
      Option.get_or (eval s c w call.keys call.args) ([], w)

  evaluate-script :
      (w : W) (supplied : Option ℕ)
      → evaluate w supplied
        ≡ script s c w
            (apply_prefix key)
            (capacity config)
            (tokens_per_second s config)
            (call_time s c w supplied)
  unfolding bucket_call eval
  evaluate-script w supplied = rw (burst_or_limit-capacity config burst) refl

  -- The replies to a sequence of calls of one key, from a server that does not hold it, state what the
  -- algorithm decides at the times of the calls: the same decision, remaining and counted calls and
  -- wait, which `parse_script_result` reads back from them, and the reset to the second. It is asked
  -- that the rate is resolved and the burst not 0, that the hashes keep what is set, that the key is
  -- left alone or expires in time between the calls, and that their times never decrease.
  pub balance_replies-responses :
      (w : W) (calls : List (Call W))
      → Absent c (apply_prefix key) w
      → LeftAlone evaluate
          (call_time s c)
          (ttl s (capacity config) (tokens_per_second s config) * s.ticks)
          (Undisturbed c (apply_prefix key))
          (Absent c (apply_prefix key))
          0
          w
          calls
      → AllState s
          (replies evaluate w calls)
          (responses s config (initial_state s config) (times evaluate (call_time s c) w calls))
  balance_replies-responses w calls absent left =
      subst (AllState s _) (decisions-responses s config r (initial_state s config) _) (
        replies-AllState evaluate (call_time s c)
          (ttl s (capacity config) (tokens_per_second s config) * s.ticks)
          (Undisturbed c (apply_prefix key)) (Absent c (apply_prefix key)) s
          (λ state now. compute s state config now) (Shows s config r c keeps (apply_prefix key))
          (λ last w state meanwhile supplied shows le quiet.
            rw (evaluate-script (meanwhile w) supplied) (
              run-Shows s config r c keeps (apply_prefix key) (meanwhile w) state
                (call_time s c (meanwhile w) supplied)
                (refilled-Shows s config r c keeps (apply_prefix key) last
                  (call_time s c (meanwhile w) supplied) w (meanwhile w) state shows quiet)))
          0 w (initial_state s config) calls (unseen absent refl) left)
