-- ===== src/Backend/Core/Refinement.antt =====
-- A key of the store behaves as its algorithm alone: neither the other keys nor the expiry of
-- entries can be seen in the answers.
use rate_limit_patterns.Prelude.{
  ◌≡◌, refl, sym, ap, inl, inr, Bool, false, Option, none, some, List, [], ◌∷◌, arith,
  if◌then◌else◌, Bool-cases,
}
use rate_limit_patterns.Prelude.Int.{ℤ, pos, ◌+ℤ◌, ◌≤ℤ◌, leb_ℤ}
use rate_limit_patterns.Prelude.Text.{Text, text_eq, text_eq_refl, text_eq_sound}
use rate_limit_patterns.Prelude.Dict.{get, get-insert}
use rate_limit_patterns.Models.{RateLimitConfig, Scale, IsValid, IsResolved, Result, ok, raise}
use rate_limit_patterns.Algorithms.Base.{Metadata, Decision}
use rate_limit_patterns.Algorithms.Protocol.{AlgorithmState, RateLimitAlgorithm}
use rate_limit_patterns.Backend.Core.{
  LocalEntry, LocalStateCore, live, algorithm_for, ttl_for, starting_state, finish, apply,
}
use rate_limit_patterns.Backend.Core.Idle.{LeftAt, compute_expired}
use rate_limit_patterns.Backend.Core.Total.{
  ReadyAt, LeftAt-ReadyAt, initial_state-ReadyAt, compute_total,
}
use rate_limit_patterns.Backend.Core.Cleanup.{answer, after_check}

module _ (config : RateLimitConfig) (algorithm : RateLimitAlgorithm) where
  -- What the algorithm alone answers to calls at these times.
  unfoldable pub alone : AlgorithmState → List ℤ → List (Result (Bool × Metadata))
  alone state [] = []
  alone state (t ∷ ts) = elim (algorithm.compute state config t) [
    | ok d ↦ ok (d.0, d.2) ∷ alone d.1 ts
    | raise e ↦ raise e ∷ alone state ts
  ]

module _ (s : Scale) (config : RateLimitConfig) (algorithm : RateLimitAlgorithm) (key : Text) where
  -- What the store answers to the checks of `key`, among the checks of all keys.
  unfoldable pub answers_to : LocalStateCore → List (Text × ℤ) → List (Result (Bool × Metadata))
  answers_to core [] = []
  answers_to core ((k, t) ∷ calls) =
      let outcome = apply s core algorithm k config t in
      let rest = answers_to (after_check core outcome) calls in
      if text_eq k key then answer outcome ∷ rest else rest

-- The times of the checks of `key`.
unfoldable pub times_of : Text → List (Text × ℤ) → List ℤ
times_of key [] = []
times_of key ((k, t) ∷ calls) = if text_eq k key then t ∷ times_of key calls else times_of key calls

-- The checks come in the order of the clock.
abbrev pub InOrder : ℤ → List (Text × ℤ) → Type 0
InOrder start [] = Unit
InOrder start ((k, t) ∷ calls) = (start ≤ℤ t) × InOrder t calls

module _ (s : Scale) (config : RateLimitConfig) (r : IsResolved s config) (v : IsValid config)
    (algorithm : RateLimitAlgorithm) (known : algorithm_for s config.algorithm ≡ ok algorithm)
    (key : Text) where
  -- The entry of the key stands for the state that the algorithm alone would have.
  data Stands (start : ℤ) (entry : Option LocalEntry) (state : AlgorithmState) : Type 0 where
    unseen : entry ≡ none → state ≡ algorithm.initial_state config → Stands start entry state
    seen :
        (last : ℤ)
        → last ≤ℤ start
        → LeftAt s config config.algorithm last state
        → entry ≡ some (record { state = state; expires_at = last +ℤ pos (ttl_for s config) })
        → Stands start entry state

  Stands-mono :
      (start now : ℤ) (entry : Option LocalEntry) (state : AlgorithmState)
      → start ≤ℤ now
      → Stands start entry state
      → Stands now entry state
  Stands-mono start now entry state le (unseen e f) = unseen e f
  Stands-mono start now entry state le (seen last h left e) = seen last (omega arith) left e

  Stands-ReadyAt :
      (now : ℤ) (entry : Option LocalEntry) (state : AlgorithmState)
      → Stands now entry state
      → ReadyAt s config config.algorithm now state
  Stands-ReadyAt now entry state (unseen e f) =
      rw f (initial_state-ReadyAt s config config.algorithm algorithm now known)
  Stands-ReadyAt now entry state (seen last h left e) =
      LeftAt-ReadyAt s config config.algorithm last now state h left

  -- Whatever the entry shows, the call computes what the algorithm alone computes.
  compute-Stands :
      (now : ℤ) (entry : Option LocalEntry) (state : AlgorithmState)
      → Stands now entry state
      → algorithm.compute (starting_state s algorithm entry config now) config now
        ≡ algorithm.compute state config now
  unfolding starting_state live
  compute-Stands now entry state (unseen e f) = rw (e, f) refl
  compute-Stands now entry state (seen last h left e) =
      let expires_at = last +ℤ pos (ttl_for s config) in
      elim (Bool-cases (leb_ℤ expires_at now)) [
        | inl old ↦
            rw (e, starting_state, live)
              (rw old (
                sym (
                  compute_expired s config r config.algorithm algorithm last now state refl known
                    left (ground arith))))
        | inr fresh ↦ rw (e, starting_state, live) (rw fresh refl)
      ]

  get-finish_ne :
      (core : LocalStateCore) (k : Text) (now : ℤ) (computed : Result (Decision AlgorithmState))
      → text_eq k key ≡ false
      → get key (after_check core (finish s core k config now computed)).state ≡ get key core.state
  unfolding finish
  get-finish_ne core k now (ok (allowed, state, m)) other =
      rw (get-insert k key _ core.state, other) refl
  get-finish_ne core k now (raise e) other = refl

  get-finish_self :
      (core : LocalStateCore) (now : ℤ) (d : Decision AlgorithmState)
      → get key (after_check core (finish s core key config now (ok d))).state
        ≡ some (record { state = d.1; expires_at = now +ℤ pos (ttl_for s config) })
  unfolding finish
  get-finish_self core now d = rw (get-insert key key _ core.state, text_eq_refl key) refl

  answer-finish :
      (core : LocalStateCore) (now : ℤ) (d : Decision AlgorithmState)
      → answer (finish s core key config now (ok d)) ≡ ok (d.0, d.2)
  unfolding finish
  answer-finish core now d = refl

  get-apply_ne :
      (core : LocalStateCore) (k : Text) (now : ℤ)
      → text_eq k key ≡ false
      → get key (after_check core (apply s core algorithm k config now)).state ≡ get key core.state
  unfolding apply
  get-apply_ne core k now other = get-finish_ne core k now _ other

  -- A check of the key finds what the algorithm alone computes.
  apply-Stands :
      (core : LocalStateCore) (now : ℤ) (state : AlgorithmState)
      → Stands now (get key core.state) state
      → apply s core algorithm key config now
        ≡ finish s core key config now (algorithm.compute state config now)
  unfolding apply
  apply-Stands core now state stands =
      ap (finish s core key config now) (compute-Stands now (get key core.state) state stands)

  answers_to_standing :
      (start : ℤ) (core : LocalStateCore) (state : AlgorithmState) (calls : List (Text × ℤ))
      → InOrder start calls
      → Stands start (get key core.state) state
      → answers_to s config algorithm key core calls
        ≡ alone config algorithm state (times_of key calls)
  unfolding answers_to times_of alone
  answers_to_standing start core state [] h stands = refl
  answers_to_standing start core state ((k, t) ∷ calls) h stands =
      let now_stands = Stands-mono start t (get key core.state) state h.0 stands in
      elim (Bool-cases (text_eq k key)) [
        | inl same ↦
            let (d, done, left) =
              compute_total s config v config.algorithm algorithm t state known
                (Stands-ReadyAt t (get key core.state) state now_stands) in
            let core' = after_check core (finish s core key config t (ok d)) in
            let stands' : Stands t (get key core'.state) d.1 =
              seen t (omega arith) left (get-finish_self core t d) in
            rw
              (
                same,
                text_eq_sound k key same,
                apply-Stands core t state now_stands,
                done,
                alone,
                answer-finish core t d,
                answers_to_standing t core' d.1 calls h.1 stands',
              )
              refl
        | inr other ↦ rw other (
            answers_to_standing t (after_check core (apply s core algorithm k config t)) state calls
              h.1 (rw (get-apply_ne core k t other) now_stands))
      ]

  -- For one valid and resolved configuration and the algorithm that it names, on an empty store: when
  -- all keys are checked with this configuration and algorithm, at times that never decrease from one
  -- check to the next, then whatever other keys are checked in between and whatever expires, the
  -- answers to the checks of `key` are those of the algorithm alone, called at the same times.
  pub answers_to-alone :
      (start : ℤ) (time_offset : ℤ) (calls : List (Text × ℤ))
      → InOrder start calls
      → answers_to s config algorithm key (record { state = []; time_offset = time_offset }) calls
        ≡ alone config algorithm (algorithm.initial_state config) (times_of key calls)
  unfolding get
  answers_to-alone start time_offset calls h =
      answers_to_standing start (record { state = []; time_offset = time_offset })
        (algorithm.initial_state config) calls h (unseen refl refl)
