-- ===== src/Backend/Scripts/Escape.antt =====
-- Which errors `_evalsha_with_retry` lets through.
use rate_limit_patterns.Prelude.{◌≡◌, refl, ap, ◌∙◌, inl, inr, Option, none, some, List, []}
use rate_limit_patterns.Prelude.Int.{ℤ}
use rate_limit_patterns.Prelude.Text.{Text}
use rate_limit_patterns.Prelude.Dict.{Dict, get}
use rate_limit_patterns.Models.{
  AlgorithmType, RedisError, no_script, other_failure, backend_unavailable, backend_configuration,
  redis_error, Result, ok, raise, raise-injective,
}
use rate_limit_patterns.Backend.RedisShared.{Arg, algorithm_name, iter_missing_scripts}
use rate_limit_patterns.Backend.Scripts.{
  Reply, reply, fails, RedisProtocol, evalsha_again, reload_scripts, after_reload, after_no_script,
  evalsha_with_retry,
}
use rate_limit_patterns.Backend.Scripts.Retry.{LoadEnds, load_scripts-LoadEnds}

module _ {W : Type 0} (client : RedisProtocol W) (load_lua_script : Text → Text)
    (algorithm : AlgorithmType) (keys : List Text) (args : List Arg) where
  -- How a script call ends, by the known SHAs, and by the reply to its first attempt and the server
  -- after it.
  pub data Ends (known : Dict Text)
      : Reply (List ℤ) × W → Result (List ℤ) × Dict Text × W → Type 0 where
    served : {xs : List ℤ} {w : W} → Ends known (reply xs, w) (ok xs, known, w)
    unavailable :
        {w : W} → Ends known (fails other_failure, w) (raise backend_unavailable, known, w)
    reload_failed :
        {shas : Dict Text} {w w' : W}
        → reload_scripts client load_lua_script w ≡ (raise backend_unavailable, shas, w')
        → Ends known (fails no_script, w) (raise backend_unavailable, shas, w')
    unloaded :
        {shas : Dict Text} {w w' : W}
        → reload_scripts client load_lua_script w ≡ (ok tt, shas, w')
        → get (algorithm_name algorithm) shas ≡ none
        → Ends known (fails no_script, w) (raise backend_configuration, shas, w')
    again_served :
        {shas : Dict Text} {w w' w'' : W} {new_sha : Text} {xs : List ℤ}
        → reload_scripts client load_lua_script w ≡ (ok tt, shas, w')
        → get (algorithm_name algorithm) shas ≡ some new_sha
        → client.evalsha w' new_sha keys args ≡ (reply xs, w'')
        → Ends known (fails no_script, w) (ok xs, shas, w'')
    again_failed :
        {shas : Dict Text} {w w' w'' : W} {new_sha : Text} {e : RedisError}
        → reload_scripts client load_lua_script w ≡ (ok tt, shas, w')
        → get (algorithm_name algorithm) shas ≡ some new_sha
        → client.evalsha w' new_sha keys args ≡ (fails e, w'')
        → Ends known (fails no_script, w) (raise (redis_error e), shas, w'')

  module _ (known : Dict Text) (w : W) where
    again-Ends :
        (shas : Dict Text) (w' : W) (new_sha : Text)
        → reload_scripts client load_lua_script w ≡ (ok tt, shas, w')
        → get (algorithm_name algorithm) shas ≡ some new_sha
        → Ends known (fails no_script, w) (evalsha_again client new_sha keys args shas w')
    unfolding evalsha_again
    again-Ends shas w' new_sha loaded found = go (client.evalsha w' new_sha keys args) refl
      where
        go :
            (answered : Reply (List ℤ) × W)
            → client.evalsha w' new_sha keys args ≡ answered
            → Ends known
                (fails no_script, w)
                (elim answered.0 [
                  | reply xs ↦ (ok xs, shas, answered.1)
                  | fails e ↦ (raise (redis_error e), shas, answered.1)
                ])
        go (reply xs, w'') e = again_served loaded found e
        go (fails e', w'') e = again_failed loaded found e

    after_reload-Ends :
        (shas : Dict Text) (w' : W) (found : Option Text)
        → reload_scripts client load_lua_script w ≡ (ok tt, shas, w')
        → get (algorithm_name algorithm) shas ≡ found
        → Ends known
            (fails no_script, w)
            (elim found [
              | none ↦ (raise backend_configuration, shas, w')
              | some new_sha ↦ evalsha_again client new_sha keys args shas w'
            ])
    after_reload-Ends shas w' none loaded e = unloaded loaded e
    after_reload-Ends shas w' (some new_sha) loaded e = again-Ends shas w' new_sha loaded e

    reloaded-Ends :
        (r : Result (Unit {0}) × Dict Text × W)
        → LoadEnds client r
        → reload_scripts client load_lua_script w ≡ r
        → Ends known (fails no_script, w) (after_reload client algorithm keys args r)
    unfolding after_reload
    reloaded-Ends (ok done, shas, w') h e =
        after_reload-Ends shas w' (get (algorithm_name algorithm) shas) e refl
    reloaded-Ends (raise e', shas, w') (inl h) e = absurd (cc)
    reloaded-Ends (raise e', shas, w') (inr h) e = rw (raise-injective h) (
        reload_failed (
          e
          ∙ ap (λ x. let r : Result (Unit {0}) × Dict Text × W = (raise x, shas, w') in r)
              (raise-injective h)))

    reload-LoadEnds : LoadEnds client (reload_scripts client load_lua_script w)
    unfolding reload_scripts
    reload-LoadEnds = load_scripts-LoadEnds client (iter_missing_scripts load_lua_script []) [] w

  replied-Ends :
      (known : Dict Text) (first : Reply (List ℤ)) (w : W)
      → Ends known
          (first, w)
          (elim first [
            | reply xs ↦ (ok xs, known, w)
            | fails e ↦ elim e [
              | no_script ↦ after_no_script client load_lua_script algorithm keys args w
              | other_failure ↦ (raise backend_unavailable, known, w)
            ]
          ])
  unfolding after_no_script
  replied-Ends known (reply xs) w = served
  replied-Ends known (fails other_failure) w = unavailable
  replied-Ends known (fails no_script) w =
      reloaded-Ends known w (reload_scripts client load_lua_script w) (reload-LoadEnds known w) refl

  -- A script call gives the reply of its first attempt, or the library's error where that has failed
  -- with anything but NOSCRIPT. After NOSCRIPT the scripts are loaded again: if the loading fails, or
  -- leaves no SHA for the algorithm, the error is the library's; else the call is sent once more, with
  -- the new SHA and the same keys and arguments, and gives its reply, or the error of Redis as it is.
  pub evalsha_with_retry-Ends :
      (sha : Text) (known : Dict Text) (w : W)
      → Ends known
          (client.evalsha w sha keys args)
          (evalsha_with_retry client load_lua_script sha algorithm keys args known w)
  unfolding evalsha_with_retry
  evalsha_with_retry-Ends sha known w =
      replied-Ends known (client.evalsha w sha keys args).0 (client.evalsha w sha keys args).1
