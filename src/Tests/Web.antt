-- ===== src/Tests/Web.antt =====
-- Keys, limiter and middleware at concrete inputs.
use rate_limit_patterns.Prelude.{
  true, false, Option, none, some, List, [], ◌∷◌, ◌++◌, map, ◌≡◌, ◌≢◌, refl, arith,
}
use rate_limit_patterns.Prelude.Int.{ℤ, pos}
use rate_limit_patterns.Prelude.Text.{Text, codes, text_eq}
use rate_limit_patterns.Prelude.Dict.{get}
use rate_limit_patterns.Models.{RateLimitEvent, RateLimitResult, Result, ok, raise, value_error}
use rate_limit_patterns.Backend.Protocol.{RateLimitBackend}
use rate_limit_patterns.Backend.Keying
use mathlib.Core.Option
use rate_limit_patterns.Limiter
use rate_limit_patterns.Middleware.Headers
use rate_limit_patterns.Middleware.Shared.{fail_open, log}
use rate_limit_patterns.Middleware.Asgi
use rate_limit_patterns.Middleware.Fastapi
use rate_limit_patterns.Tests.Samples.{scale, config}

tagged : Keying.extract_hash_tag (codes "rl:{u}:k") ≡ some (codes "u")
unfolding Keying.extract_hash_tag Keying.search_hash_tag Keying.until_close
tagged = refl

extract_hash_tag-append_example :
    Keying.extract_hash_tag (codes "rl:{u}:k" ++ codes ":seq") ≡ some (codes "u")
extract_hash_tag-append_example =
    Keying.Tags.extract_hash_tag-append (codes "rl:{u}:k") (codes ":seq") (codes "u") tagged

u_nonempty : codes "u" ≢ []
u_nonempty e = cc

extract_hash_tag-build_example :
    Keying.extract_hash_tag (Keying.build_redis_cluster_key (codes "u") (codes ":k") (codes "rl:"))
    ≡ some (codes "u")
extract_hash_tag-build_example =
    Keying.Tags.extract_hash_tag-build (codes "u") (codes ":k") (codes "rl:") u_nonempty
      (omega arith) (omega arith)

make_limiter-PrefixedOnce_example :
    Limiter.Keys.PrefixedOnce
      (codes "rl:")
      config
      []
      (Limiter.make_limiter (some (codes "rl:")) config [])
make_limiter-PrefixedOnce_example = Limiter.Keys.make_limiter-PrefixedOnce (codes "rl:") config []

-- Prints a number by that many strokes.
abbrev strokes : ℤ → Text
strokes n = codes "|"

-- A backend that admits every request.
abbrev admission : RateLimitResult
admission = record {
  allowed = true;
  remaining = pos 5;
  limit = 6;
  retry_after = none;
  reset_at = some (pos 1195);
  request_count = pos 1;
}

abbrev admitting_backend : RateLimitBackend (Unit {0})
admitting_backend = record {
  check_and_increment = λ b key config now. (ok admission, b);
  reset = λ b key. (ok tt, b);
}

-- A hook that raises.
abbrev broken_hook : RateLimitEvent → Result (Unit {0})
broken_hook event = raise value_error

abbrev middleware : Asgi.RateLimitMiddleware Text
middleware = record {
  config = config;
  key_extractor = λ request. request;
  failure_mode = fail_open;
  event_hook = some broken_hook;
  event_hook_failure = log;
  header_style = Headers.both;
  backend_type = codes "redis";
}

abbrev unencoded : Text → Text
unencoded text = text

call-Handles_example :
    Asgi.Guard.Handles scale strokes unencoded middleware 1 true
      (ok admission)
      (Asgi.call scale strokes unencoded middleware admitting_backend
        (codes "http")
        (codes "a")
        1
        tt).0
unfolding text_eq
call-Handles_example =
    Asgi.Guard.call-Handles scale strokes unencoded middleware 1 admitting_backend (codes "http")
      (codes "a") tt

-- Header names and values, and the messages of one response.
abbrev added : List (Text × Text)
added = (codes "X-RateLimit-Limit", codes "6") ∷ []

abbrev own : List (Text × Text)
own = (codes "content-type", codes "text/plain") ∷ []

abbrev body : List (Asgi.Message Text)
body = Asgi.other (codes "http.response.body") ∷ []

send_all-start_example :
    Asgi.send_all added false
      (map Asgi.other (codes "http.response.push" ∷ []) ++ Asgi.start 200 own ∷ body)
    ≡ map Asgi.other (codes "http.response.push" ∷ []) ++ Asgi.start 200 (own ++ added) ∷ body
send_all-start_example =
    Asgi.Guard.send_all-start added own 200 (codes "http.response.push" ∷ []) body

abbrev denial : RateLimitResult
denial = record {
  allowed = false;
  remaining = pos 0;
  limit = 6;
  retry_after = some (pos 10);
  reset_at = some (pos 1195);
  request_count = pos 2;
}

build_rate_limit_headers-lookup_example :
    (second : Option ℤ) × Headers.Lookup.IsRoundedUp scale (some (pos 1195)) second
    × (let headers = Headers.build_rate_limit_headers scale strokes denial Headers.standard in
        (get (codes "X-RateLimit-Limit") headers ≡ none)
        × (get (codes "X-RateLimit-Remaining") headers ≡ none)
        × (get (codes "RateLimit-Limit") headers ≡ some (strokes (pos 6)))
        × (get (codes "RateLimit-Remaining") headers ≡ some (strokes (pos 0)))
        × (get (codes "Retry-After") headers ≡ some (strokes (pos 10)))
        × (get (codes "X-RateLimit-Reset") headers ≡ none)
        × (get (codes "RateLimit-Reset") headers ≡ Option.map strokes second))
build_rate_limit_headers-lookup_example =
    Headers.Lookup.build_rate_limit_headers-lookup scale strokes denial Headers.standard
      (omega arith)

call-Agrees_example :
    (let handled =
        Asgi.call scale strokes unencoded middleware admitting_backend
          (codes "http")
          (codes "a")
          1
          tt in
      let depended =
        Fastapi.call scale strokes
          (Fastapi.Agreement.as_dependency scale strokes unencoded middleware)
          admitting_backend
          (codes "a")
          1
          tt in
      Fastapi.Agreement.Agrees scale strokes unencoded middleware handled.0 depended.0
      × (handled.1 ≡ depended.1)
      × (handled.2 ≡ depended.2))
call-Agrees_example =
    Fastapi.Agreement.call-Agrees scale strokes unencoded middleware admitting_backend (codes "a") 1
      tt
