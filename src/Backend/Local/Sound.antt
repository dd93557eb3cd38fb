-- ===== src/Backend/Local/Sound.antt =====
-- Stores whose entries were left by calls: a check of one comes to a decision.
use mathlib.Core.Path.{subst}
use rate_limit_patterns.Prelude.{
  ◌≡◌, refl, ap, sym, ◌∙◌, Bool, Bool-cases, inl, inr, false, none, some, Option-cases, arith,
}
use rate_limit_patterns.Prelude.Int.{ℤ, pos, ◌≤ℤ◌, ◌+ℤ◌, leb_ℤ, ltb_ℤ}
use rate_limit_patterns.Prelude.Text.{Text, text_eq, text_eq_sound}
use rate_limit_patterns.Prelude.Dict.{get, insert, get-insert}
use rate_limit_patterns.Models.{
  RateLimitConfig, RateLimitResult, Scale, IsValid, IsResolved, make_result, Result, ok,
}
use rate_limit_patterns.Algorithms.Base.{Metadata, Decision}
use rate_limit_patterns.Algorithms.Protocol.{AlgorithmState, RateLimitAlgorithm}
use rate_limit_patterns.Backend.Core.{
  LocalEntry, LocalStateCore, live, algorithm_for, starting_state, ttl_for, finish, apply,
  build_result, to_wall_time,
}
use rate_limit_patterns.Backend.Core.Total.{
  ReadyAt, LeftAt-ReadyAt, initial_state-ReadyAt, compute_total,
}
use rate_limit_patterns.Backend.Core.Idle.{LeftAt}
use rate_limit_patterns.Backend.Core.Told.{at_once, IsWithin, compute-IsWithin}
use rate_limit_patterns.Backend.Local.Entries.{Shrinks}

-- A configuration that the backend can serve.
pub record IsServed (s : Scale) (config : RateLimitConfig) : Type 0 where
  pub algorithm : RateLimitAlgorithm
  pub known : algorithm_for s config.algorithm ≡ ok algorithm
  pub valid : IsValid config
  pub resolved : IsResolved s config

-- The result of a check, within what its configuration lets through at once.
pub record Answers (config : RateLimitConfig) (outcome : Result RateLimitResult) : Type 0 where
  pub result : RateLimitResult
  pub answered : outcome ≡ ok result
  pub remaining_nonneg : pos 0 ≤ℤ result.remaining
  pub remaining_le : result.remaining ≤ℤ pos (at_once config.algorithm config)
  pub limit : result.limit ≡ config.limit

nonneg_ltb : (a : ℤ) → pos 0 ≤ℤ a → ltb_ℤ a (pos 0) ≡ false
nonneg_ltb a h = ground arith

pub build_result-Answers :
    (config : RateLimitConfig) (allowed : Bool) (m : Metadata) (now_mono now_wall : ℤ)
    → IsWithin (at_once config.algorithm config) m
    → Answers config (build_result config allowed m now_mono now_wall)
unfolding build_result make_result
build_result-Answers config allowed m now_mono now_wall within = record {
  result = record {
    allowed = allowed;
    remaining = m.remaining;
    limit = config.limit;
    retry_after = m.retry_after;
    reset_at = to_wall_time (some m.reset_at) now_mono now_wall;
    request_count = m.request_count;
  };
  answered =
      rw
        (
          nonneg_ltb m.remaining within.remaining_nonneg,
          nonneg_ltb m.request_count within.count_nonneg,
        )
        refl;
  remaining_nonneg = within.remaining_nonneg;
  remaining_le = within.remaining_le;
  limit = refl;
}

module _ (s : Scale) (configs : Text → RateLimitConfig) where
  -- Every entry of the store was left by a call of its key's configuration.
  abbrev pub IsSound : ℤ → LocalStateCore → Type 0
  IsSound now core =
      (key : Text) (entry : LocalEntry)
      → get key core.state ≡ some entry
      → (last : ℤ) × (last ≤ℤ now) × LeftAt s (configs key) (configs key).algorithm last entry.state

  IsSound-Shrinks : (now : ℤ) (c d : LocalStateCore) → IsSound now c → Shrinks c d → IsSound now d
  IsSound-Shrinks now c d sound shrinks key entry h = sound key entry (shrinks key entry h)

  IsSound-insert :
      (last now : ℤ) (core : LocalStateCore) (k : Text) (left : LocalEntry)
      → IsSound last core
      → last ≤ℤ now
      → LeftAt s (configs k) (configs k).algorithm now left.state
      → IsSound now (record core { state = insert k left core.state })
  IsSound-insert last now core k left sound le new key entry h = elim (Bool-cases (text_eq k key)) [
    | inl same ↦
        let stored : get key (insert k left core.state) ≡ some left =
          get-insert k key left core.state ∙ rw same refl in
        let is_left : left ≡ entry =
          ap (λ o. elim o [ none ↦ left | some x ↦ x ]) (sym stored ∙ h) in
        (
          now,
          omega arith,
          subst (λ j. LeftAt s (configs j) (configs j).algorithm now entry.state)
              (text_eq_sound k key same)
              (subst (λ (x : LocalEntry). LeftAt s (configs k) (configs k).algorithm now x.state)
                is_left new),
        )
    | inr other ↦
        let stored : get key (insert k left core.state) ≡ get key core.state =
          get-insert k key left core.state ∙ rw other refl in
        let (t, before, old) = sound key entry (sym stored ∙ h) in (t, omega arith, old)
  ]

  starting_state-ReadyAt :
      (served : (key : Text) → IsServed s (configs key)) (last now : ℤ) (core : LocalStateCore)
      (key : Text)
      → IsSound last core
      → last ≤ℤ now
      → ReadyAt s
          (configs key)
          (configs key).algorithm
          now
          (starting_state s (served key).algorithm (get key core.state) (configs key) now)
  unfolding starting_state live
  starting_state-ReadyAt served last now core key sound le =
      let config = configs key in
      let algorithm = (served key).algorithm in
      let new = initial_state-ReadyAt s config config.algorithm algorithm now (served key).known in
      elim (Option-cases (get key core.state)) [
        | inl missing ↦ rw (missing, starting_state, live) new
        | inr (entry, found) ↦
            let (t, before, left) = sound key entry found in
            rw (found, starting_state, live)
              (elim (Bool-cases (leb_ℤ entry.expires_at now)) [
                | inl old ↦ rw old new
                | inr fresh ↦
                    rw fresh (
                      LeftAt-ReadyAt s config config.algorithm t now entry.state (omega arith) left)
              ])
      ]

  -- A check of a sound store comes to a decision, and leaves a sound store.
  pub apply-IsSound :
      (served : (key : Text) → IsServed s (configs key)) (last now : ℤ) (core : LocalStateCore)
      (key : Text)
      → IsSound last core
      → last ≤ℤ now
      → (d : Decision AlgorithmState) × (core' : LocalStateCore) × (apply s core
            (served key).algorithm
            key
            (configs key)
            now
          ≡ ok (d.0, d.2, core'))
        × IsWithin (at_once (configs key).algorithm (configs key)) d.2
        × IsSound now core'
  unfolding apply finish
  apply-IsSound served last now core key sound le =
      let config = configs key in
      let algorithm = (served key).algorithm in
      let state = starting_state s algorithm (get key core.state) config now in
      let ready = starting_state-ReadyAt served last now core key sound le in
      let (d, done, left) =
        compute_total s config (served key).valid config.algorithm algorithm now state
          (served key).known ready in
      let entry : LocalEntry = record { state = d.1; expires_at = now +ℤ pos (ttl_for s config) } in
      (
        d,
        record core { state = insert key entry core.state },
        rw done refl,
        compute-IsWithin s config (served key).resolved (served key).valid config.algorithm
            algorithm now state d (served key).known ready done,
        IsSound-insert last now core key entry sound le left,
      )
