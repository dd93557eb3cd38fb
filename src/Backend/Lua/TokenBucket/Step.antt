-- ===== src/Backend/Lua/TokenBucket/Step.antt =====
-- One call of token_bucket.lua against one call of `TokenBucketAlgorithm.compute`.
use mathlib.Core.Option
use rate_limit_patterns.Prelude.{
  ℕ, ◌+◌, ◌-◌, ◌*◌, ◌/◌, ◌≤◌, ◌<◌, leb, Bool, true, false, Bool-cases, if◌then◌else◌, ◌≡◌, refl, ap,
  ◌∙◌, ◌⊎◌, inl, inr, Option, none, some, List, [], ◌∷◌, arith,
}
use rate_limit_patterns.Prelude.Int.{ℤ, pos, gap-pos, int_laws}
use rate_limit_patterns.Prelude.Quotient.{ceil_div, ceil_div_pos, mul_pos}
use rate_limit_patterns.Prelude.Text.{Text, codes, text_eq}
use rate_limit_patterns.Models.{
  RateLimitConfig, Scale, IsResolved, one, capacity, tokens_per_second,
}
use rate_limit_patterns.Algorithms.TokenBucket as Algorithm
use rate_limit_patterns.Algorithms.TokenBucket.{State, settle, compute, initial_state}
use rate_limit_patterns.Algorithms.TokenBucket.Bounds.{refilled_le_capacity}
use rate_limit_patterns.Backend.Lua.{Commands}
use rate_limit_patterns.Backend.Lua.Trace.{
  KeepsHashes, truthy_pos, fields-States, States, decisions, reset_within, ttl_covers, Undisturbed,
  Absent,
}
use rate_limit_patterns.Backend.RedisShared.Contract.{Waits, reply_of}
use rate_limit_patterns.Algorithms.TokenBucket.Run.{responses}
use rate_limit_patterns.Backend.Lua.TokenBucket.{tokens_after, reply, ttl, refilled, script}

module _ (s : Scale) (config : RateLimitConfig) (r : IsResolved s config) where
  -- The reply states the settlement.
  settle-States :
      (now : ℕ) (allowed : Bool) (tokens retry : ℕ) (told : Option ℤ)
      → tokens ≤ capacity config * one s
      → Option.get_or told (pos 0) ≡ pos retry
      → Waits allowed told
      → (let rate = tokens_per_second s config in
          let missing = capacity config * one s - tokens in
          States s
            ((if allowed then pos 1 else pos 0)
              ∷ pos (tokens / one s)
              ∷ pos retry
              ∷ pos ((now * rate + missing) / (rate * s.ticks))
              ∷ pos (missing / one s)
              ∷ [])
            (settle s config (pos now) allowed tokens told).0
            (settle s config (pos now) allowed tokens told).2)
  unfolding settle reply_of
  settle-States now allowed tokens retry told le e waits =
      let rate = tokens_per_second s config in
      let missing = capacity config * one s - tokens in
      let (low, high) = reset_within now missing rate s.ticks r.rate_pos r.ticks_pos in
      fields-States s ((now * rate + missing) / (rate * s.ticks)) (rw e refl) waits
        (omega (int_laws, low)) (omega (int_laws, high))

  compute-States :
      (state : State) (now : ℕ)
      → (let tokens = Algorithm.refilled s state config (pos now) in
          let d = compute s state config (pos now) in
          States s (reply s (capacity config) (tokens_per_second s config) now tokens) d.0 d.2
          × (d.1 ≡ record { tokens = tokens_after s tokens; last_refill = pos now }))
  unfolding compute reply settle
  compute-States state now =
      let tokens = Algorithm.refilled s state config (pos now) in
      let bound = refilled_le_capacity s state config (pos now) in
      elim (Bool-cases (leb (one s) tokens)) [
        | inl enough ↦
            rw enough
              (settle-States now true (tokens - one s) 0 none (omega (arith, bound)) refl tt, refl)
        | inr short ↦
            let rate = tokens_per_second s config * s.ticks in
            let wait_pos =
              ceil_div_pos (one s - tokens) rate
                (mul_pos (tokens_per_second s config) s.ticks r.rate_pos r.ticks_pos)
                (ground (arith, short)) in
            rw short (
              settle-States now false tokens _ _ bound refl
                  (truthy_pos (ceil_div (one s - tokens) rate) wait_pos),
              refl,
            )
      ]

  -- The balance that the script refills is the balance that the algorithm refills.
  refilled-stored :
      {W : Type 0} (c : Commands W) (w : W) (key : Text) (state : State) (last now : ℕ)
      → c.hget w key (codes "tokens") ≡ some state.tokens
      → c.hget w key (codes "last_refill") ≡ some last
      → state.last_refill ≡ pos last
      → refilled s c w key (capacity config) (tokens_per_second s config) now
        ≡ Algorithm.refilled s state config (pos now)
  unfolding refilled Algorithm.refilled
  refilled-stored c w key state last now tokens stored e =
      rw (tokens, stored, e, gap-pos now last) (omega arith)

  refilled-Absent :
      {W : Type 0} (c : Commands W) (w : W) (key : Text) (state : State) (now : ℕ)
      → Absent c key w
      → Algorithm.refilled s state config (pos now) ≡ capacity config * one s
      → refilled s c w key (capacity config) (tokens_per_second s config) now
        ≡ Algorithm.refilled s state config (pos now)
  unfolding refilled
  refilled-Absent c w key state now absent full =
      rw (absent (codes "tokens"), absent (codes "last_refill"), full) (omega arith)

  -- By the time that the key expires, the bucket is full.
  full_after_ttl :
      (state : State) (last now : ℕ)
      → state.last_refill ≡ pos last
      → last + ttl s (capacity config) (tokens_per_second s config) * s.ticks ≤ now
      → Algorithm.refilled s state config (pos now) ≡ capacity config * one s
  unfolding ttl Algorithm.refilled
  full_after_ttl state last now e le =
      rw (e, gap-pos now last)
        (omega (
          arith,
          ttl_covers (capacity config * one s) (tokens_per_second s config) s.ticks last now
              r.rate_pos r.ticks_pos le,
        ))

  module _ {W : Type 0} (c : Commands W) (keeps : KeepsHashes c) (key : Text) where
    -- What the server holds of the key after a call at `last`, or before the first one.
    pub data Shows (last : ℕ) (w : W) (state : State) : Type 0 where
      stored :
          c.hget w key (codes "tokens") ≡ some state.tokens
          → c.hget w key (codes "last_refill") ≡ some last
          → state.last_refill ≡ pos last
          → Shows last w state
      unseen : Absent c key w → state ≡ initial_state s config → Shows last w state

    abbrev pub run : W → ℕ → List ℤ × W
    run w now = script s c w key (capacity config) (tokens_per_second s config) now

    pub run-Shows :
        (w : W) (state : State) (now : ℕ)
        → refilled s c w key (capacity config) (tokens_per_second s config) now
          ≡ Algorithm.refilled s state config (pos now)
        → (let d = compute s state config (pos now) in
            States s (run w now).0 d.0 d.2 × Shows now (run w now).1 d.1)
    unfolding script ttl text_eq
    run-Shows w state now e =
        let (states, after) = compute-States state now in
        let ttl_pos : 0 < ttl s (capacity config) (tokens_per_second s config) = omega arith in
        rw e (
          states,
          rw after (
              stored
                (keeps.expire_keeps _ key (codes "tokens") _ ttl_pos
                  ∙ keeps.first_set w key (codes "tokens") (codes "last_refill") _ now refl)
                (keeps.expire_keeps _ key (codes "last_refill") _ ttl_pos
                  ∙ keeps.second_set w key (codes "tokens") (codes "last_refill") _ now)
                refl),
        )

    full_initial :
        (now : ℕ)
        → Algorithm.refilled s (initial_state s config) config (pos now) ≡ capacity config * one s
    unfolding initial_state Algorithm.refilled
    full_initial now = omega arith

    pub refilled-Shows :
        (last now : ℕ) (w w' : W) (state : State)
        → Shows last w state
        → Undisturbed c key w w'
          ⊎ (Absent c key w'
              × (last + ttl s (capacity config) (tokens_per_second s config) * s.ticks ≤ now))
        → refilled s c w' key (capacity config) (tokens_per_second s config) now
          ≡ Algorithm.refilled s state config (pos now)
    refilled-Shows last now w w' state (stored tokens refill e) (inl same) =
        refilled-stored c w' key state last now (same (codes "tokens") ∙ tokens)
          (same (codes "last_refill") ∙ refill) e
    refilled-Shows last now w w' state (stored tokens refill e) (inr (absent, le)) =
        refilled-Absent c w' key state now absent (full_after_ttl state last now e le)
    refilled-Shows last now w w' state (unseen absent e) (inl same) =
        refilled-Absent c w' key state now (λ f. same f ∙ absent f) (rw e (full_initial now))
    refilled-Shows last now w w' state (unseen _ e) (inr (absent, le)) =
        refilled-Absent c w' key state now absent (rw e (full_initial now))

  pub decisions-responses :
      (state : State) (ts : List ℤ)
      → decisions (λ state now. compute s state config now) state ts ≡ responses s config state ts
  unfolding decisions responses
  decisions-responses state [] = refl
  decisions-responses state (t ∷ ts) =
      ap (◌∷◌ ((compute s state config t).0, (compute s state config t).2))
        (decisions-responses (compute s state config t).1 ts)
