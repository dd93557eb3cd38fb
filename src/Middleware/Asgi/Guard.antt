-- ===== src/Middleware/Asgi/Guard.antt =====
-- src/rate_limit_patterns/middleware/asgi.py: what `RateLimitMiddleware` lets through, and where the
-- headers go.
use rate_limit_patterns.Prelude.{
  inl, inr, ap, ℕ, Bool, true, false, Bool-cases, if◌then◌else◌, List, [], ◌∷◌, ◌++◌, map, Option,
  none, some, not, ◌≡◌, refl,
}
use rate_limit_patterns.Prelude.Int.{ℤ}
use rate_limit_patterns.Prelude.Text.{Text, codes, text_eq}
use rate_limit_patterns.Models.{
  RateLimitResult, Error, value_error, key_error, index_error, runtime_error, rate_limit_exceeded,
  backend_unavailable, backend_configuration, redis_error, Result, ok, raise, Scale, RateLimitEvent,
}
use rate_limit_patterns.Backend.Protocol.{RateLimitBackend}
use rate_limit_patterns.Middleware.Headers.{
  Headers, build_rate_limit_headers, build_rate_limit_header_bytes,
}
use rate_limit_patterns.Middleware.Shared.{
  FailureMode, fail_closed, fail_open, EventHookFailure, reraise, log, deliver,
  emit_rate_limit_event,
}
use rate_limit_patterns.Middleware.Asgi.{
  RateLimitMiddleware, Handling, forward, forward_with, respond, is_unavailable, on_unavailable,
  backend_unavailable_response, rate_limit_response, decide, after_check, call, Message, start,
  other, wrapped_send, send_all, send_through_request,
}

module _ {Bytes : Type 0} where
  send_all-sent :
      (extra : List (Bytes × Bytes)) (messages : List (Message Bytes))
      → send_all extra true messages ≡ messages
  unfolding send_all wrapped_send
  send_all-sent extra [] = refl
  send_all-sent extra (message ∷ messages) = ap (◌∷◌ message) (send_all-sent extra messages)

  -- The headers go to the first message that starts the response, after its own headers; every other
  -- message is passed on as it is.
  pub send_all-start :
      (extra headers : List (Bytes × Bytes)) (status : ℕ) (kinds : List Text)
      (messages : List (Message Bytes))
      → send_all extra false (map other kinds ++ start status headers ∷ messages)
        ≡ map other kinds ++ start status (headers ++ extra) ∷ messages
  unfolding send_all wrapped_send
  send_all-start extra headers status [] messages = rw (send_all-sent extra messages) refl
  send_all-start extra headers status (kind ∷ kinds) messages =
      ap (◌∷◌ (other kind)) (send_all-start extra headers status kinds messages)

-- A `send` under which the response starts with these headers after its own, and which passes on
-- every other message as it is.
abbrev pub AddsHeaders :
    {Bytes : Type 0}
    → (Text → Bytes)
    → Headers
    → (List (Message Bytes) → List (Message Bytes))
    → Type 0
AddsHeaders encode headers send =
    (status : ℕ) (own : List _) (kinds : List Text) (messages : List _)
    → send (map other kinds ++ start status own ∷ messages)
      ≡ map other kinds
        ++ start status (own ++ map (λ (name, value). (encode name, encode value)) headers)
          ∷ messages

no_raise :
    {hook hook' : RateLimitEvent → Result (Unit {0})}
    {found : Option (RateLimitEvent → Result (Unit {0}))} {event : RateLimitEvent} {done : Unit {0}}
    {e : Error}
    → found ≡ some hook
    → found ≡ some hook'
    → hook event ≡ ok done
    → hook' event ≡ raise e
    → ⊥
no_raise set set' delivered raised = cc

module _ (s : Scale) (str : ℤ → Text) {Bytes : Type 0} (encode : Text → Bytes) {Request : Type 0}
    (m : RateLimitMiddleware Request) (latency_ms : ℕ) where
  -- The event of a result.
  abbrev pub event_of : RateLimitResult → RateLimitEvent
  event_of result = record {
    algorithm = m.config.algorithm;
    allowed = result.allowed;
    remaining = result.remaining;
    retry_after = result.retry_after;
    backend_type = m.backend_type;
    latency_ms = latency_ms;
  }

  -- There is a hook that raises on the event of the result, and the policy is to let that through.
  abbrev pub Raises : RateLimitResult → Error → Type 0
  Raises result e =
      (hook : RateLimitEvent → Result (Unit {0})) × (m.event_hook ≡ some hook)
      × (hook (event_of result) ≡ raise e)
      × (m.event_hook_failure ≡ reraise)

  -- What may become of a request, by whether it is HTTP and by the outcome of its check.
  pub data Handles : Bool → Result RateLimitResult → Result (Handling Bytes) → Type 0 where
    not_http : {checked : Result RateLimitResult} → Handles false checked (ok forward)
    admitted :
        {result : RateLimitResult} {send : List (Message Bytes) → List (Message Bytes)}
        → ((e : Error) → ¬ Raises result e)
        → result.allowed ≡ true
        → AddsHeaders encode (build_rate_limit_headers s str result m.header_style) send
        → Handles true (ok result) (ok (forward_with send))
    denied :
        {result : RateLimitResult}
        → ((e : Error) → ¬ Raises result e)
        → result.allowed ≡ false
        → Handles true (ok result) (
            ok (
              respond 429
                (codes "Rate limit exceeded")
                (build_rate_limit_headers s str result m.header_style)))
    opened : m.failure_mode ≡ fail_open → Handles true (raise backend_unavailable) (ok forward)
    closed :
        m.failure_mode ≡ fail_closed
        → Handles true
            (raise backend_unavailable)
            (ok (respond 503 (codes "Rate limit backend unavailable") []))
    hook_raised :
        {result : RateLimitResult} {e : Error}
        → Raises result e
        → Handles true (ok result) (raise e)
    failed : {e : Error} → is_unavailable e ≡ false → Handles true (raise e) (raise e)

  unavailable :
      (mode : FailureMode)
      → m.failure_mode ≡ mode
      → Handles true (raise backend_unavailable) (ok (on_unavailable mode))
  unfolding backend_unavailable_response
  unavailable fail_open chosen = opened chosen
  unavailable fail_closed chosen = closed chosen

  check_raised :
      (e : Error) → Handles true (raise e) (after_check s str encode m latency_ms (raise e)).0
  unfolding after_check
  check_raised backend_unavailable = unavailable m.failure_mode refl
  check_raised value_error = failed refl
  check_raised key_error = failed refl
  check_raised index_error = failed refl
  check_raised runtime_error = failed refl
  check_raised (rate_limit_exceeded retry_after result) = failed refl
  check_raised backend_configuration = failed refl
  check_raised (redis_error e) = failed refl

  decided :
      (result : RateLimitResult)
      → ((e : Error) → ¬ Raises result e)
      → Handles true (ok result) (decide s str encode m (ok tt) result)
  unfolding decide rate_limit_response send_through_request build_rate_limit_header_bytes
  decided result quiet = go result.allowed refl
    where
      go :
          (allowed : Bool)
          → result.allowed ≡ allowed
          → Handles true (ok result) (
              if not allowed
              then ok (rate_limit_response s str encode m result)
              else ok (send_through_request s str encode m result))
      go true chosen =
          admitted quiet chosen
            (λ status own kinds messages. send_all-start _ own status kinds messages)
      go false chosen = denied quiet chosen

  decide_raised :
      (result : RateLimitResult) (e : Error)
      → Raises result e
      → Handles true (ok result) (decide s str encode m (raise e) result)
  unfolding decide
  decide_raised result e raises = hook_raised raises

  after_event :
      (result : RateLimitResult) (hook : RateLimitEvent → Result (Unit {0}))
      (policy : EventHookFailure) (delivery : Result (Unit {0}))
      → m.event_hook ≡ some hook
      → hook (event_of result) ≡ delivery
      → m.event_hook_failure ≡ policy
      → Handles true
          (ok result)
          (decide s str encode m (deliver (event_of result) policy delivery).outcome result)
  unfolding deliver
  after_event result hook policy (ok done) set delivered chosen =
      decided result (λ e (hook', set', raised, policy'). no_raise set set' delivered raised)
  after_event result hook log (raise e) set delivered chosen =
      decided result (λ e' (hook', set', raised, policy'). absurd (cc))
  after_event result hook reraise (raise e) set delivered chosen =
      decide_raised result e (hook, set, delivered, chosen)

  after_emission :
      (result : RateLimitResult) (hook : Option (RateLimitEvent → Result (Unit {0})))
      → m.event_hook ≡ hook
      → Handles true (ok result) (
          decide s str encode m
            (emit_rate_limit_event hook m.event_hook_failure m.config.algorithm result
              m.backend_type latency_ms).outcome
            result)
  unfolding emit_rate_limit_event
  after_emission result none unset = decided result (λ e (hook, set, raised, policy). absurd (cc))
  after_emission result (some hook) set =
      after_event result hook m.event_hook_failure (hook (event_of result)) set refl refl

  checked_ok :
      (result : RateLimitResult)
      → Handles true (ok result) (after_check s str encode m latency_ms (ok result)).0
  unfolding after_check
  checked_ok result = after_emission result m.event_hook refl

  checked :
      (outcome : Result RateLimitResult)
      → Handles true outcome (after_check s str encode m latency_ms outcome).0
  checked (ok result) = checked_ok result
  checked (raise e) = check_raised e

  module _ {B : Type 0} (backend : RateLimitBackend B) where
    -- Whatever the request, the backend and the hook: a request that is not HTTP is passed on. One
    -- whose check gives a result, where no hook raises on its event under the policy that lets the
    -- error through, is passed on where the result admits it, with the headers of the result after the
    -- response's own, and otherwise gets the 429 response with these headers. With the backend
    -- unavailable the failure mode decides. Any other error of the check, and the error of a hook
    -- that raises on the event of this result under that policy, is raised.
    pub call-Handles :
        (scope_type : Text) (request : Request) (b : B)
        → Handles
            (text_eq scope_type (codes "http"))
            (backend.check_and_increment b (m.key_extractor request) m.config none).0
            (call s str encode m backend scope_type request latency_ms b).0
    unfolding call
    call-Handles scope_type request b = elim (Bool-cases (text_eq scope_type (codes "http"))) [
      | inl http ↦
          rw http
            (checked (backend.check_and_increment b (m.key_extractor request) m.config none).0)
      | inr not ↦ rw not not_http
    ]
