-- ===== src/Backend/Lua/LeakyBucket/Step.antt =====
-- One call of leaky_bucket.lua against one call of `LeakyBucketAlgorithm.compute`.
use mathlib.Core.Option
use mathlib.Core.Path.{subst}
use rate_limit_patterns.Prelude.{
  ℕ, ◌+◌, ◌-◌, ◌*◌, ◌/◌, ◌≤◌, ◌<◌, max, ltb, leb, Bool, true, false, Bool-cases, if◌then◌else◌, ◌≡◌,
  refl, ap, ◌∙◌, ◌⊎◌, inl, inr, Option, none, some, List, [], ◌∷◌, arith,
}
use rate_limit_patterns.Prelude.Int.{ℤ, pos, gap-pos, int_laws}
use rate_limit_patterns.Prelude.Quotient.{ceil_div}
use rate_limit_patterns.Prelude.Text.{Text, codes, text_eq}
use rate_limit_patterns.Models.{
  RateLimitConfig, Scale, IsResolved, one, capacity, tokens_per_second,
}
use rate_limit_patterns.Algorithms.LeakyBucket.{
  State, settle, compute, initial_state, leaked, wait_for,
}
use rate_limit_patterns.Algorithms.LeakyBucket.Duality
use rate_limit_patterns.Backend.Lua.{Commands}
use rate_limit_patterns.Backend.Lua.Trace.{
  KeepsHashes, truthy_pos, fields-States, States, decisions, reset_within, ttl_covers, Undisturbed,
  Absent,
}
use rate_limit_patterns.Backend.RedisShared.Contract.{reply_of, Waits}
use rate_limit_patterns.Algorithms.LeakyBucket.Run.{responses}
use rate_limit_patterns.Backend.Lua.LeakyBucket.{
  has_room, new_queue_size, reply, ttl, drained, script,
}

module _ (s : Scale) (config : RateLimitConfig) (r : IsResolved s config) where
  ltb_rate : ltb 0 (tokens_per_second s config) ≡ true
  ltb_rate = ground (arith, r.rate_pos)

  leb_rate : leb (tokens_per_second s config) 0 ≡ false
  leb_rate = ground (arith, r.rate_pos)

  -- The reply states the settlement.
  settle-States :
      (now : ℕ) (allowed : Bool) (queue retry : ℕ) (told : Option ℤ)
      → Option.get_or told (pos 0) ≡ pos retry
      → Waits allowed told
      → (let rate = tokens_per_second s config in
          States s
            ((if allowed then pos 1 else pos 0)
              ∷ pos ((capacity config * one s - queue) / one s)
              ∷ pos retry
              ∷ pos ((now * rate + queue) / (rate * s.ticks))
              ∷ pos (queue / one s)
              ∷ [])
            (settle s config (pos now) allowed queue told).0
            (settle s config (pos now) allowed queue told).2)
  unfolding settle reply_of
  settle-States now allowed queue retry told e waits =
      let rate = tokens_per_second s config in
      let (low, high) = reset_within now queue rate s.ticks r.rate_pos r.ticks_pos in
      fields-States s ((now * rate + queue) / (rate * s.ticks)) (rw e refl) waits
        (rw leb_rate (omega (int_laws, low))) (rw leb_rate (omega (int_laws, high)))

  compute-States :
      (state : State) (now : ℕ)
      → (let queue = leaked s state config (pos now) in
          let d = compute s state config (pos now) in
          States s (reply s (capacity config) (tokens_per_second s config) now queue) d.0 d.2
          × (d.1 ≡ record {
            queue_size = new_queue_size s (capacity config) queue;
            last_leak = pos now;
          }))
  unfolding compute reply settle wait_for
  compute-States state now =
      let queue = leaked s state config (pos now) in
      elim (Bool-cases (has_room s (capacity config) queue)) [
        | inl room ↦
            rw (room, ltb_rate) (settle-States now true (queue + one s) 0 none refl tt, refl)
        | inr full ↦
            rw (full, ltb_rate)
              (settle-States now false queue _ _ refl (truthy_pos _ (omega arith)), refl)
      ]

  -- The queue that the script drains is the queue that the algorithm drains.
  drained-stored :
      {W : Type 0} (c : Commands W) (w : W) (key : Text) (state : State) (last now : ℕ)
      → c.hget w key (codes "queue_size") ≡ some state.queue_size
      → c.hget w key (codes "last_leak") ≡ some last
      → state.last_leak ≡ pos last
      → drained s c w key (tokens_per_second s config) now ≡ leaked s state config (pos now)
  unfolding drained leaked
  drained-stored c w key state last now tokens stored e =
      rw (tokens, stored, e, gap-pos now last) (omega arith)

  drained-Absent :
      {W : Type 0} (c : Commands W) (w : W) (key : Text) (state : State) (now : ℕ)
      → Absent c key w
      → leaked s state config (pos now) ≡ 0
      → drained s c w key (tokens_per_second s config) now ≡ leaked s state config (pos now)
  unfolding drained
  drained-Absent c w key state now absent full =
      rw (absent (codes "queue_size"), absent (codes "last_leak"), full) (omega arith)

  -- By the time that the key expires, the queue is empty.
  empty_after_ttl :
      (state : State) (last now : ℕ)
      → state.last_leak ≡ pos last
      → Duality.Fits s config state
      → last + ttl s (capacity config) (tokens_per_second s config) * s.ticks ≤ now
      → leaked s state config (pos now) ≡ 0
  unfolding ttl leaked
  empty_after_ttl state last now e fits le =
      let secs = ceil_div (capacity config * one s) (tokens_per_second s config * s.ticks) in
      let due : last + max 1 secs * s.ticks ≤ now =
        subst (λ (rate_pos : Bool). last + (if rate_pos then max 1 secs else 1) * s.ticks ≤ now)
          ltb_rate le in
      rw (e, gap-pos now last)
        (omega (
          arith,
          fits,
          ttl_covers (capacity config * one s) (tokens_per_second s config) s.ticks last now
              r.rate_pos r.ticks_pos due,
        ))

  module _ {W : Type 0} (c : Commands W) (keeps : KeepsHashes c) (key : Text) where
    -- What the server holds of the key after a call at `last`, or before the first one.
    pub data Shows (last : ℕ) (w : W) (state : State) : Type 0 where
      stored :
          c.hget w key (codes "queue_size") ≡ some state.queue_size
          → c.hget w key (codes "last_leak") ≡ some last
          → state.last_leak ≡ pos last
          → Duality.Fits s config state
          → Shows last w state
      unseen : Absent c key w → state ≡ initial_state s config → Shows last w state

    abbrev pub run : W → ℕ → List ℤ × W
    run w now = script s c w key (capacity config) (tokens_per_second s config) now

    pub run-Shows :
        (w : W) (state : State) (now : ℕ)
        → Duality.Fits s config state
        → drained s c w key (tokens_per_second s config) now ≡ leaked s state config (pos now)
        → (let d = compute s state config (pos now) in
            States s (run w now).0 d.0 d.2 × Shows now (run w now).1 d.1)
    unfolding script ttl text_eq
    run-Shows w state now fits e =
        let (states, after) = compute-States state now in
        let still =
          subst (Duality.Fits s config) after
            (Duality.compute-Fits s config state (pos now) fits) in
        let ttl_pos : 0 < ttl s (capacity config) (tokens_per_second s config) = grind arith in
        rw e (
          states,
          rw after (
              stored
                (keeps.expire_keeps _ key (codes "queue_size") _ ttl_pos
                  ∙ keeps.first_set w key (codes "queue_size") (codes "last_leak") _ now refl)
                (keeps.expire_keeps _ key (codes "last_leak") _ ttl_pos
                  ∙ keeps.second_set w key (codes "queue_size") (codes "last_leak") _ now)
                refl still),
        )

    pub shown-Fits :
        (last : ℕ) (w : W) (state : State) → Shows last w state → Duality.Fits s config state
    unfolding initial_state
    shown-Fits last w state (stored _ _ _ fits) = fits
    shown-Fits last w state (unseen _ e) = rw e (omega arith)

    empty_initial : (now : ℕ) → leaked s (initial_state s config) config (pos now) ≡ 0
    unfolding initial_state leaked
    empty_initial now = omega arith

    pub drained-Shows :
        (last now : ℕ) (w w' : W) (state : State)
        → Shows last w state
        → Undisturbed c key w w'
          ⊎ (Absent c key w'
              × (last + ttl s (capacity config) (tokens_per_second s config) * s.ticks ≤ now))
        → drained s c w' key (tokens_per_second s config) now ≡ leaked s state config (pos now)
    drained-Shows last now w w' state (stored queue leak e fits) (inl same) =
        drained-stored c w' key state last now (same (codes "queue_size") ∙ queue)
          (same (codes "last_leak") ∙ leak) e
    drained-Shows last now w w' state (stored queue leak e fits) (inr (absent, le)) =
        drained-Absent c w' key state now absent (empty_after_ttl state last now e fits le)
    drained-Shows last now w w' state (unseen absent e) (inl same) =
        drained-Absent c w' key state now (λ f. same f ∙ absent f) (rw e (empty_initial now))
    drained-Shows last now w w' state (unseen _ e) (inr (absent, le)) =
        drained-Absent c w' key state now absent (rw e (empty_initial now))

  pub decisions-responses :
      (state : State) (ts : List ℤ)
      → decisions (λ state now. compute s state config now) state ts ≡ responses s config state ts
  unfolding decisions responses
  decisions-responses state [] = refl
  decisions-responses state (t ∷ ts) =
      ap (◌∷◌ ((compute s state config t).0, (compute s state config t).2))
        (decisions-responses (compute s state config t).1 ts)
