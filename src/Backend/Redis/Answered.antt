-- ===== src/Backend/Redis/Answered.antt =====
-- A check of `RedisBackend` on a server whose scripts reply as they are written to.
use rate_limit_patterns.Prelude.{
  ◌≡◌, refl, ap, ◌∙◌, Bool, true, false, Option, List, [], ◌∷◌, arith,
}
use rate_limit_patterns.Prelude.Int.{ℤ, pos, ◌≤ℤ◌, ltb_ℤ}
use rate_limit_patterns.Prelude.Text.{Text}
use rate_limit_patterns.Models.{RateLimitConfig, RateLimitResult, Scale, Result, ok, make_result}
use rate_limit_patterns.Backend.RedisShared.{Arg, parse_script_result}
use rate_limit_patterns.Backend.Scripts.{reply, RedisProtocol}
use rate_limit_patterns.Backend.Scripts.Retry.{Serving, IsSupported}
use rate_limit_patterns.Backend.Redis.{RedisBackend, check_and_increment}
use rate_limit_patterns.Backend.Redis.Serves.{check_and_increment-serves}

-- A reply of five numbers, of which the remaining capacity and the count are not negative.
abbrev pub IsWellFormed : List ℤ → Type 0
IsWellFormed (allowed ∷ remaining ∷ wait ∷ reset_at ∷ count ∷ []) =
    (pos 0 ≤ℤ remaining) × (pos 0 ≤ℤ count)
IsWellFormed _ = ⊥

-- A result for a configuration.
abbrev pub IsAnswered : RateLimitConfig → Result RateLimitResult → Type 0
IsAnswered config outcome =
    (result : RateLimitResult) × (outcome ≡ ok result)
    × (result.limit ≡ config.limit)
    × (pos 0 ≤ℤ result.remaining)

make_result-ok :
    (config : RateLimitConfig) (allowed : Bool) (remaining count : ℤ)
    (retry_after reset_at : Option ℤ)
    → pos 0 ≤ℤ remaining
    → pos 0 ≤ℤ count
    → IsAnswered config (make_result allowed remaining config.limit retry_after reset_at count)
unfolding make_result
make_result-ok config allowed remaining count retry_after reset_at h k =
    let first : ltb_ℤ remaining (pos 0) ≡ false = ground arith in
    let second : ltb_ℤ count (pos 0) ≡ false = ground arith in
    (
      record {
        allowed = allowed;
        remaining = remaining;
        limit = config.limit;
        retry_after = retry_after;
        reset_at = reset_at;
        request_count = count;
      },
      rw (first, second) refl,
      refl,
      h,
    )

parse_script_result-ok :
    (s : Scale) (config : RateLimitConfig) (xs : List ℤ)
    → IsWellFormed xs
    → IsAnswered config (parse_script_result s xs config)
unfolding parse_script_result
parse_script_result-ok s config (a ∷ m ∷ w ∷ r ∷ c ∷ []) h = make_result-ok config _ m c _ _ h.0 h.1
parse_script_result-ok s config [] h = absurd h
parse_script_result-ok s config (a ∷ []) h = absurd h
parse_script_result-ok s config (a ∷ m ∷ []) h = absurd h
parse_script_result-ok s config (a ∷ m ∷ w ∷ []) h = absurd h
parse_script_result-ok s config (a ∷ m ∷ w ∷ r ∷ []) h = absurd h
parse_script_result-ok s config (a ∷ m ∷ w ∷ r ∷ c ∷ d ∷ rest) h = absurd h

module _ {W : Type 0} (client : RedisProtocol W) (load_lua_script : Text → Text)
    (holds : W → Text → Type 0) (up : Serving client holds) (s : Scale) (key : Text)
    (config : RateLimitConfig) (now : Option ℤ) (supported : IsSupported config.algorithm) where
  -- On a server that is up and whose scripts reply with five numbers, of which the remaining capacity
  -- and the count are not negative, a connected backend outside cluster mode gives a result to every
  -- check of a supported algorithm, with the limit of the configuration and no negative remaining
  -- capacity, whichever scripts it has loaded before and whatever the server has forgotten.
  pub check_and_increment-IsAnswered :
      (b : RedisBackend W)
      → b.connected ≡ true
      → b.cluster_mode ≡ false
      → ((w : W) (sha : Text) (keys : List Text) (args : List Arg) (xs : List ℤ)
          → (client.evalsha w sha keys args).0 ≡ reply xs
          → IsWellFormed xs)
      → IsAnswered config (check_and_increment client load_lua_script s b key config now).0
  check_and_increment-IsAnswered b connected plain replies =
      let (script_call, built, (w, sha, xs, replied, read)) =
        check_and_increment-serves client load_lua_script holds up s key config now supported b
          connected plain in
      let (result, done, limit, remaining) =
        parse_script_result-ok s config xs
          (replies w sha script_call.keys script_call.args xs (ap (λ r. r.0) replied)) in
      (result, read ∙ done, limit, remaining)
